-- ===== src/Client/Options.antt =====
-- What munge_ctx_get of src/libmunge/ctx.c reads after munge_ctx_set.
use munge.Prelude.{
  ℕ, ◌≤◌, ◌<◌, ◌≢◌, arith, Bool-cases, ◌≡◌, refl, sym, ◌∙◌, ◌⊎◌, inl, inr, List, Bool, true, false,
  Option, none, some, ltb, length,
}
use munge.Message.{emunge_success, emunge_bad_arg, emunge_no_memory}
use munge.Message.Transport.{emunge_bad_length}
use munge.Client.Ctx.{
  ctx_get, get_value, Ctx, Opt, opt_cipher, opt_mac, opt_zip, opt_realm, opt_ttl, opt_addr4,
  opt_encode_time, opt_decode_time, opt_socket, opt_uid, opt_gid, opt_ignore_ttl, opt_ignore_replay,
  opt_unknown, Value, int, string, id, clear_error, with_error, int_of_bool, value_of, is_true,
  store_realm, store_socket, Setting, set_cipher, set_mac, set_zip, set_ttl, set_ignore_ttl,
  set_ignore_replay, set_realm_str, set_socket_str, set_uid, set_gid, set_addr4, set_encode_time,
  set_decode_time, set_unknown, set_value, ctx_set,
}

-- The option of a setting, and what is read of it: the flags are 0 or 1.
abbrev pub opt_of : Setting → Opt
opt_of (set_cipher n) = opt_cipher
opt_of (set_mac n) = opt_mac
opt_of (set_zip n) = opt_zip
opt_of (set_realm_str s) = opt_realm
opt_of (set_ttl n) = opt_ttl
opt_of (set_socket_str s) = opt_socket
opt_of (set_uid n) = opt_uid
opt_of (set_gid n) = opt_gid
opt_of (set_ignore_ttl n) = opt_ignore_ttl
opt_of (set_ignore_replay n) = opt_ignore_replay
opt_of set_addr4 = opt_addr4
opt_of set_encode_time = opt_encode_time
opt_of set_decode_time = opt_decode_time
opt_of set_unknown = opt_unknown

abbrev pub argument : Setting → Option Value
argument (set_cipher n) = some (int n)
argument (set_mac n) = some (int n)
argument (set_zip n) = some (int n)
argument (set_realm_str s) = some (string s)
argument (set_ttl n) = some (int n)
argument (set_socket_str s) = some (string s)
argument (set_uid n) = some (id n)
argument (set_gid n) = some (id n)
argument (set_ignore_ttl n) = some (int (int_of_bool (is_true n)))
argument (set_ignore_replay n) = some (int (int_of_bool (is_true n)))
argument set_addr4 = none
argument set_encode_time = none
argument set_decode_time = none
argument set_unknown = none

-- Which settings are taken, when there is memory for a string or not: a realm has at most 255
-- characters, and four options cannot be set.
abbrev pub Allowed : Bool → Setting → Type 0
Allowed mem (set_realm_str (some s)) = (length s ≤ 255) × (mem ≡ true)
Allowed mem (set_socket_str (some s)) = mem ≡ true
Allowed mem set_addr4 = ⊥
Allowed mem set_encode_time = ⊥
Allowed mem set_decode_time = ⊥
Allowed mem set_unknown = ⊥
Allowed mem _ = Unit

-- The errors of the others.
abbrev pub Refusal : Bool → Setting → ℕ → Type 0
Refusal mem (set_realm_str (some s)) e =
    ((255 < length s) × (e ≡ emunge_bad_length))
    ⊎ ((length s ≤ 255) × (mem ≡ false) × (e ≡ emunge_no_memory))
Refusal mem (set_socket_str (some s)) e = (mem ≡ false) × (e ≡ emunge_no_memory)
Refusal mem set_addr4 e = e ≡ emunge_bad_arg
Refusal mem set_encode_time e = e ≡ emunge_bad_arg
Refusal mem set_decode_time e = e ≡ emunge_bad_arg
Refusal mem set_unknown e = e ≡ emunge_bad_arg
Refusal mem _ e = ⊥

-- What `munge_ctx_get` writes for an option.
abbrev pub reading : Opt → Ctx → Option Value
reading q c = (ctx_get q c).2

-- An allowed setting succeeds, its option reads as its argument, and the others as before; any other
-- fails with its error, which the context keeps, and all options read as before.
pub data Set (mem : Bool) (x : Setting) (c : Ctx) (r : ℕ × Ctx) : Type 0 where
  done :
      Allowed mem x
      → r.0 ≡ emunge_success
      → r.1.error_num ≡ emunge_success
      → reading (opt_of x) r.1 ≡ argument x
      → ((q : Opt) → q ≢ opt_of x → reading q r.1 ≡ reading q c)
      → Set mem x c r
  refused :
      Refusal mem x r.0
      → r.1.error_num ≡ r.0
      → ((q : Opt) → reading q r.1 ≡ reading q c)
      → Set mem x c r

reading-value_of : (q : Opt) (c : Ctx) → reading q c ≡ value_of q c
unfolding ctx_get get_value value_of clear_error
reading-value_of opt_cipher c = refl
reading-value_of opt_unknown c = refl
reading-value_of _ c = refl

same_reading : (q : Opt) (c d : Ctx) → value_of q d ≡ value_of q c → reading q d ≡ reading q c
same_reading q c d e = reading-value_of q d ∙ e ∙ sym (reading-value_of q c)

-- An error changes no option.
same_values :
    (c : Ctx) (e : ℕ) (q : Opt)
    → value_of q (record (clear_error c) { error_num = e }) ≡ value_of q c
unfolding value_of clear_error
same_values c e opt_cipher = refl
same_values c e _ = refl

with_error-Set :
    (mem : Bool) (x : Setting) (c : Ctx) (e : ℕ)
    → Refusal mem x e
    → Set mem x c (with_error e (clear_error c))
unfolding with_error clear_error
with_error-Set mem x c e known = refused known refl (λ q. same_reading q c _ (same_values c e q))

-- The context behind an allowed setting.
abbrev assigned : Setting → Ctx → Ctx
assigned (set_cipher n) c = record (clear_error c) { cipher = n }
assigned (set_mac n) c = record (clear_error c) { mac = n }
assigned (set_zip n) c = record (clear_error c) { zip = n }
assigned (set_realm_str s) c = record (clear_error c) { realm_str = s }
assigned (set_ttl n) c = record (clear_error c) { ttl = n }
assigned (set_socket_str s) c = record (clear_error c) { socket_str = s }
assigned (set_uid n) c = record (clear_error c) { auth_uid = n }
assigned (set_gid n) c = record (clear_error c) { auth_gid = n }
assigned (set_ignore_ttl n) c = record (clear_error c) { ignore_ttl = is_true n }
assigned (set_ignore_replay n) c = record (clear_error c) { ignore_replay = is_true n }
assigned _ c = clear_error c

other_values :
    (x : Setting) (c : Ctx) (q : Opt) → q ≢ opt_of x → value_of q (assigned x c) ≡ value_of q c
unfolding value_of clear_error
other_values (set_cipher n) c opt_cipher h = absurd (h refl)
other_values (set_cipher n) c _ h = refl
other_values (set_mac n) c opt_mac h = absurd (h refl)
other_values (set_mac n) c _ h = refl
other_values (set_zip n) c opt_zip h = absurd (h refl)
other_values (set_zip n) c _ h = refl
other_values (set_realm_str s) c opt_realm h = absurd (h refl)
other_values (set_realm_str s) c _ h = refl
other_values (set_ttl n) c opt_ttl h = absurd (h refl)
other_values (set_ttl n) c _ h = refl
other_values (set_socket_str s) c opt_socket h = absurd (h refl)
other_values (set_socket_str s) c _ h = refl
other_values (set_uid n) c opt_uid h = absurd (h refl)
other_values (set_uid n) c _ h = refl
other_values (set_gid n) c opt_gid h = absurd (h refl)
other_values (set_gid n) c _ h = refl
other_values (set_ignore_ttl n) c opt_ignore_ttl h = absurd (h refl)
other_values (set_ignore_ttl n) c _ h = refl
other_values (set_ignore_replay n) c opt_ignore_replay h = absurd (h refl)
other_values (set_ignore_replay n) c _ h = refl
other_values set_addr4 c opt_cipher h = refl
other_values set_addr4 c _ h = refl
other_values set_encode_time c opt_cipher h = refl
other_values set_encode_time c _ h = refl
other_values set_decode_time c opt_cipher h = refl
other_values set_decode_time c _ h = refl
other_values set_unknown c opt_cipher h = refl
other_values set_unknown c _ h = refl

assigned_error : (x : Setting) (c : Ctx) → (assigned x c).error_num ≡ emunge_success
unfolding clear_error
assigned_error (set_cipher n) c = refl
assigned_error _ c = refl

assigned-Set :
    (mem : Bool) (x : Setting) (c : Ctx)
    → Allowed mem x
    → value_of (opt_of x) (assigned x c) ≡ argument x
    → Set mem x c (emunge_success, assigned x c)
assigned-Set mem x c h own =
    done h refl (assigned_error x c) (reading-value_of (opt_of x) (assigned x c) ∙ own)
      (λ q k. same_reading q c _ (other_values x c q k))

store_realm-Set :
    (mem : Bool) (c : Ctx) (s : Option (List ℕ))
    → Set mem (set_realm_str s) c (store_realm mem (clear_error c) s)
unfolding store_realm value_of clear_error
store_realm-Set mem c none = assigned-Set mem (set_realm_str none) c tt refl
store_realm-Set mem c (some s) = elim (Bool-cases (ltb 255 (length s))) [
  | inl long ↦ rw long (with_error-Set mem _ c emunge_bad_length (inl (ground (arith, long), refl)))
  | inr short ↦
      let fits : length s ≤ 255 = ground (arith, short) in
      elim (Bool-cases mem) [
        | inl e ↦ rw (short, e) (assigned-Set true (set_realm_str (some s)) c (fits, refl) refl)
        | inr e ↦ rw (short, e) (with_error-Set false _ c emunge_no_memory (inr (fits, refl, refl)))
      ]
]

store_socket-Set :
    (mem : Bool) (c : Ctx) (s : Option (List ℕ))
    → Set mem (set_socket_str s) c (store_socket mem (clear_error c) s)
unfolding store_socket value_of clear_error
store_socket-Set mem c none = assigned-Set mem (set_socket_str none) c tt refl
store_socket-Set true c (some s) = assigned-Set true (set_socket_str (some s)) c refl refl
store_socket-Set false c (some s) =
    with_error-Set false (set_socket_str (some s)) c emunge_no_memory (refl, refl)

-- `munge_ctx_set` takes every cipher, MAC, compression type, time-to-live, restriction and flag, a null
-- realm or socket, a realm of at most 255 characters and any socket if there is memory for them: it
-- returns EMUNGE_SUCCESS, `munge_ctx_get` reads the argument for this option (a flag as 0 or 1), and
-- for every other option what it read before. A longer realm fails with EMUNGE_BAD_LENGTH, a string
-- without memory with EMUNGE_NO_MEMORY, the address, the two times and an unknown option with
-- EMUNGE_BAD_ARG; the context then keeps the error, and every option reads as before.
pub ctx_set-Set : (mem : Bool) (x : Setting) (c : Ctx) → Set mem x c (ctx_set mem x c)
unfolding ctx_set set_value value_of clear_error
ctx_set-Set mem (set_cipher n) c = assigned-Set mem (set_cipher n) c tt refl
ctx_set-Set mem (set_realm_str s) c = store_realm-Set mem c s
ctx_set-Set mem (set_socket_str s) c = store_socket-Set mem c s
ctx_set-Set mem set_addr4 c = with_error-Set mem set_addr4 c emunge_bad_arg refl
ctx_set-Set mem set_encode_time c = with_error-Set mem set_encode_time c emunge_bad_arg refl
ctx_set-Set mem set_decode_time c = with_error-Set mem set_decode_time c emunge_bad_arg refl
ctx_set-Set mem set_unknown c = with_error-Set mem set_unknown c emunge_bad_arg refl
ctx_set-Set mem x c = assigned-Set mem x c tt refl
