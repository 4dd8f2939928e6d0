-- ===== src/Encode/Runs.antt =====
-- Runs of the encoder.
use mathlib.Core.Path.{subst}
use munge.Prelude.{
  ℕ, zero, suc, ◌≡◌, refl, sym, ap, arith, List, [], ◌∷◌, length, replicate, length-replicate,
  Option, none, some,
}
use munge.Cred.Sample.{service, call, empty_msg}
use munge.Prelude.Bytes.{All, IsByte}
use munge.Cred.{State, ok, and_then, cred_create}
use munge.Decode.{unwrap}
use munge.Encode.Armor.{HasMemory}
use munge.Encode.Outer.{no_cipher}
use munge.Encode.Pack.{pack_outer, pack_inner, armor}
use munge.Encode.Sealed.{Sound}
use munge.Encode.Ready.{Ready, state_or}
use munge.Encode.Receipt.{Asked, Delivered, unwrap-wrap}
use munge.Encode.Stages.{validate_msg, compress, add_mac, take_mac, encrypt, fini}
use munge.Encode.Laws.{
  Sanitized, process_msg-Sanitized, IsConfigured, IsValid, OnOk, validate_msg-IsValid,
}
use munge.Encode.{process_msg, wrap}

abbrev request : State
request = record {
  msg = record empty_msg {
    mac = 1;
    zip = 1;
    auth_uid = 7;
    payload = some (104 ∷ 105 ∷ []);
    data_len = 2;
  };
  cred = cred_create;
  replay = record {
    hash = none;
    nodes = record { free = 0; blocks = 0 };
    hash_nodes = record { free = 0; blocks = 0 };
  };
  pool = [];
}

abbrev some_or : List ℕ → Option (List ℕ) → List ℕ
some_or l none = l
some_or l (some m) = m

some_inner : {l m : List ℕ} → some l ≡ some m → l ≡ m
some_inner {l} h = ap (some_or l) h

nines-IsByte : (n : ℕ) → All IsByte (replicate n 9)
nines-IsByte zero = tt
nines-IsByte (suc n) = (omega arith, nines-IsByte n)

service-IsConfigured : IsConfigured service
service-IsConfigured = record { cipher = refl; mac = refl; zip = refl; ttl = omega arith }

process_msg-Sanitized_example : Sanitized (process_msg service call request)
process_msg-Sanitized_example = process_msg-Sanitized service call request refl

validate_msg-IsValid_example : OnOk (λ t. IsValid service t.msg) (validate_msg service request)
validate_msg-IsValid_example = validate_msg-IsValid service request service-IsConfigured

-- The request when its stages up to the time stamp are done.
abbrev ready : State
ready = record request {
  msg = record empty_msg {
    mac = 5;
    ttl = 300;
    time0 = 1100;
    client_uid = 20;
    client_gid = 30;
    auth_uid = 7;
    payload = some (104 ∷ 105 ∷ []);
    data_len = 2;
  };
  cred = record cred_create { salt = replicate 8 9 };
}

checksum_length :
    (a : ℕ) (key d x : List ℕ) → service.mac_block a key d ≡ some x → length x ≡ service.mac_size a
checksum_length a key d x h = ap (λ l. length l) (some_inner (sym h))

checksum_bytes : (a : ℕ) (key d x : List ℕ) → service.mac_block a key d ≡ some x → All IsByte x
checksum_bytes a key d x h = subst (All IsByte) (some_inner h) (omega arith, (omega arith, tt))

service-Sound : Sound service
service-Sound = record {
  mac_length = checksum_length;
  mac_bytes = checksum_bytes;
  decrypts = λ c key iv d e h. absurd cc;
  encrypt_bytes = λ c key iv d e h. absurd cc;
  zip_bytes = λ z n d e h. absurd cc;
  unzip_length = λ z n d e h. absurd cc;
  unzips = λ z n d e h. absurd cc;
}

call-HasMemory : HasMemory call
call-HasMemory = record {
  block = λ site n. replicate n 0;
  given = λ site n. refl;
  size = λ site n. length-replicate n 0;
}

ready-Ready : Ready service ready
unfolding cred_create
ready-Ready = record {
  version = refl;
  realm_len = refl;
  known = record {
    iv_fits = no_cipher;
    mac = refl;
    mac_size = omega arith;
    strength = omega arith;
    zip = refl;
  };
  fits = record {
    time0 = omega arith;
    ttl = omega arith;
    client_uid = omega arith;
    client_gid = omega arith;
    auth_uid = omega arith;
    auth_gid = omega arith;
    data_len = omega arith;
    size = refl;
  };
  salt = refl;
  addr = refl;
  cipher_byte = omega arith;
  mac_byte = omega arith;
  zip_byte = omega arith;
  iv_bytes = tt;
  salt_bytes = nines-IsByte 8;
  addr_bytes = (omega arith, (omega arith, (omega arith, (omega arith, tt))));
  payload_bytes = (omega arith, (omega arith, tt));
}

abbrev made : State
made = state_or request (wrap service call ready)

makes : wrap service call ready ≡ ok made
unfolding wrap and_then pack_outer pack_inner compress add_mac take_mac encrypt armor fini
makes = refl

abbrev asking : State
asking = record request {
  msg = record empty_msg { payload = made.msg.payload; data_len = made.msg.data_len };
}

asking-Asked : Asked call 1100 20 30 asking
asking-Asked = record { calloc = refl; time = refl; client = refl; retry = refl; no_error = refl }

unwrap-wrap_example : (w : State) × (unwrap service call asking ≡ ok w) × Delivered service ready w
unwrap-wrap_example =
    unwrap-wrap service call call ready made asking 1100 20 30 service-Sound call-HasMemory
      call-HasMemory refl ready-Ready makes asking-Asked refl refl
