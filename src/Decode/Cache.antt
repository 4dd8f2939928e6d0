-- ===== src/Decode/Cache.antt =====
-- The stages of src/munged/dec.c and the replay cache.
use mathlib.Core.Path.{subst}
use munge.Prelude.{
  ℕ, ◌≡◌, refl, List, [], ◌∷◌, ◌==◌, not, ltb, length, Bool, true, false, Option, none, some,
  if◌then◌else◌,
}
use munge.Message.{Msg}
use munge.Replay.{Replay}
use munge.Base64.Decoder.{Decoded}
use munge.Cred.{
  Service, Call, State, Result, ok, err, overrun, fail, and_then, Decrypted, bad, padded,
}
use munge.Decode.Checks.{
  refuse_if, validate_msg, timestamp, authenticate, check_retry, take_plain, decrypt_with, decrypt,
  compare_mac, validate_mac, unzip_with, decompress, validate_auth, validate_time, check_time, tmin,
  tmax,
}
use munge.Decode.Unpack.{
  set_outer, decode_armor, unarmor_text, unarmor_from, unarmor, strip_prefix, cut_suffix,
  munge_cred_prefix, big_endian, need, word, byte, unpack_mac, unpack_iv, set_realm, unpack_realm,
  unpack_zip, unpack_mac_type, unpack_cipher, unpack_outer, unpack_data, words, unpack_words,
  unpack_addr, stir, unpack_inner_from, unpack_inner,
}
use munge.Decode.{create, unwrap}

-- If the stage returns 0, the cache is the one that was there.
pub data Keeps (r : Replay) : Result → Type 0 where
  kept : (t : State) → t.replay ≡ r → Keeps r (ok t)
  stopped : (t : State) → Keeps r (err t)
  ran_over : Keeps r overrun

fail-Keeps : (r : Replay) (e : ℕ) (s : State) → Keeps r (fail e s)
unfolding fail
fail-Keeps r e s = stopped _

if-Keeps :
    (r : Replay) (b : Bool) (x y : Result) → Keeps r x → Keeps r y → Keeps r (if b then x else y)
if-Keeps r true x y h k = h
if-Keeps r false x y h k = k

need-Keeps :
    (r : Replay) (n : ℕ) (s : State) (p : List ℕ) (next : List ℕ → List ℕ → Result)
    → ((x q : List ℕ) → Keeps r (next x q))
    → Keeps r (need n s p next)
unfolding need
need-Keeps r n s p next h = if-Keeps r (ltb (length p) n) _ _ (fail-Keeps r _ s) (h _ _)

pub and_then-Keeps :
    (r : Replay) (x : Result) (f : State → Result)
    → Keeps r x
    → ((t : State) → Keeps t.replay (f t))
    → Keeps r (and_then x f)
unfolding and_then
and_then-Keeps r _ f (kept t h) k = subst (λ q. Keeps q (f t)) h (k t)
and_then-Keeps r _ f (stopped t) k = stopped t
and_then-Keeps r _ f ran_over k = ran_over

refuse_if-Keeps : (b : Bool) (e : ℕ) (s : State) → Keeps s.replay (refuse_if b e s)
unfolding refuse_if
refuse_if-Keeps b e s = if-Keeps s.replay b _ _ (fail-Keeps s.replay e s) (kept _ refl)

create-Keeps : (call : Call) (s : State) → Keeps s.replay (create call s)
unfolding create
create-Keeps call s = if-Keeps s.replay call.calloc _ _ (kept _ refl) (fail-Keeps s.replay _ s)

timestamp-Keeps : (now : Option ℕ) (s : State) → Keeps s.replay (timestamp now s)
unfolding timestamp
timestamp-Keeps none s = fail-Keeps s.replay _ s
timestamp-Keeps (some now) s = kept _ refl

authenticate-Keeps : (peer : Option (ℕ × ℕ)) (s : State) → Keeps s.replay (authenticate peer s)
unfolding authenticate
authenticate-Keeps none s = fail-Keeps s.replay _ s
authenticate-Keeps (some (uid, gid)) s = kept _ refl

set_outer-Keeps : (s : State) (o : Option (Decoded (Unit {0}))) → Keeps s.replay (set_outer s o)
unfolding set_outer
set_outer-Keeps s none = ran_over
set_outer-Keeps s (some d) = if-Keeps s.replay d.success _ _ (kept _ refl) (fail-Keeps s.replay _ s)

decode_armor-Keeps :
    (s : State) (l : List ℕ) (o : Option (List ℕ)) → Keeps s.replay (decode_armor s l o)
unfolding decode_armor
decode_armor-Keeps s l none = fail-Keeps s.replay _ s
decode_armor-Keeps s l (some buf) = set_outer-Keeps s _

option-Keeps :
    {A : Type 0} (r : Replay) (o : Option A) (x : Result) (f : A → Result)
    → Keeps r x
    → ((a : A) → Keeps r (f a))
    → Keeps r (elim o [ none ↦ x | some a ↦ f a ])
option-Keeps r none x f h k = h
option-Keeps r (some a) x f h k = k a

unarmor_from-Keeps : (call : Call) (s : State) (l : List ℕ) → Keeps s.replay (unarmor_from call s l)
unfolding unarmor_from unarmor_text
unarmor_from-Keeps call s [] = fail-Keeps s.replay _ s
unarmor_from-Keeps call s (c ∷ l) = if-Keeps s.replay (c == 0) _ _ (fail-Keeps s.replay _ s) (
    option-Keeps s.replay (strip_prefix munge_cred_prefix (c ∷ l)) _ _ (fail-Keeps s.replay _ s)
      (λ rest.
        option-Keeps s.replay (cut_suffix rest) _ _ (fail-Keeps s.replay _ s)
          (λ body. decode_armor-Keeps s body _)))

unarmor-Keeps : (call : Call) (s : State) → Keeps s.replay (unarmor call s)
unfolding unarmor
unarmor-Keeps call s = unarmor_from-Keeps call s _

unpack_mac-Keeps : (n : ℕ) (s : State) (l p : List ℕ) → Keeps s.replay (unpack_mac n s l p)
unfolding unpack_mac
unpack_mac-Keeps n s l p = if-Keeps s.replay (ltb (length p) n) _ _ ran_over (kept _ refl)

unpack_iv-Keeps : (n m : ℕ) (s : State) (p : List ℕ) → Keeps s.replay (unpack_iv n m s p)
unfolding unpack_iv
unpack_iv-Keeps n m s p =
    if-Keeps s.replay (n == 0) _ _ (unpack_mac-Keeps m s _ p)
      (need-Keeps s.replay n s p _ (λ iv q. unpack_mac-Keeps m _ _ q))

unpack_realm-Keeps :
    (call : Call) (i m n : ℕ) (s : State) (p : List ℕ)
    → Keeps s.replay (unpack_realm call i m n s p)
unfolding unpack_realm set_realm
unpack_realm-Keeps call i m n s p = if-Keeps s.replay (n == 0) _ _ (unpack_iv-Keeps i m s p) (
    need-Keeps s.replay n s p _ (λ str q.
      option-Keeps s.replay _ _ _ (fail-Keeps s.replay _ s)
        (λ mem. unpack_iv-Keeps i m (set_realm s str) q)))

unpack_zip-Keeps :
    (v : Service) (call : Call) (i m : ℕ) (s : State) (p : List ℕ)
    → Keeps s.replay (unpack_zip v call i m s p)
unfolding unpack_zip byte
unpack_zip-Keeps v call i m s p = need-Keeps s.replay 1 s p _ (λ zip q.
    if-Keeps s.replay _ _ _ (fail-Keeps s.replay _ _)
      (need-Keeps s.replay 1 _ q _ (λ len t. unpack_realm-Keeps call i m _ _ t)))

unpack_mac_type-Keeps :
    (v : Service) (call : Call) (i : ℕ) (s : State) (p : List ℕ)
    → Keeps s.replay (unpack_mac_type v call i s p)
unfolding unpack_mac_type byte
unpack_mac_type-Keeps v call i s p = need-Keeps s.replay 1 s p _ (λ mac q.
    if-Keeps s.replay (not (v.mac_map_enum (big_endian 0 mac))) _ _ (fail-Keeps s.replay _ _) (
      if-Keeps s.replay (v.mac_size (big_endian 0 mac) == 0) _ _ (fail-Keeps s.replay _ _)
        (if-Keeps s.replay _ _ _ (fail-Keeps s.replay _ _) (unpack_zip-Keeps v call i _ _ q))))

unpack_outer-Keeps :
    (v : Service) (call : Call) (s : State) → Keeps s.replay (unpack_outer v call s)
unfolding unpack_outer unpack_cipher byte
unpack_outer-Keeps v call s = need-Keeps s.replay 1 s _ _ (λ version p.
    if-Keeps s.replay _ _ _
      (need-Keeps s.replay 1 _ p _ (λ cipher q.
        if-Keeps s.replay _ _ _ (unpack_mac_type-Keeps v call 0 _ q) (
          if-Keeps s.replay _ _ _ (fail-Keeps s.replay _ _) (
            option-Keeps s.replay _ _ _ (fail-Keeps s.replay _ _)
              (λ n. unpack_mac_type-Keeps v call n _ q)))))
      (fail-Keeps s.replay _ _))

take_plain-Keeps : (s : State) (d : Decrypted) → Keeps s.replay (take_plain s d)
unfolding take_plain
take_plain-Keeps s bad = fail-Keeps s.replay _ s
take_plain-Keeps s (padded true d) = kept _ refl
take_plain-Keeps s (padded false d) = kept _ refl

decrypt_with-Keeps :
    (v : Service) (call : Call) (s : State) (o : Option (List ℕ))
    → Keeps s.replay (decrypt_with v call s o)
unfolding decrypt_with
decrypt_with-Keeps v call s none = fail-Keeps s.replay _ s
decrypt_with-Keeps v call s (some dek) =
    if-Keeps s.replay _ _ _ (fail-Keeps s.replay _ _)
      (option-Keeps s.replay _ _ _ (fail-Keeps s.replay _ _) (λ buf. take_plain-Keeps _ _))

decrypt-Keeps : (v : Service) (call : Call) (s : State) → Keeps s.replay (decrypt v call s)
unfolding decrypt
decrypt-Keeps v call s =
    if-Keeps s.replay _ _ _ (kept _ refl)
      (if-Keeps s.replay _ _ _ (fail-Keeps s.replay _ s) (decrypt_with-Keeps v call s _))

compare_mac-Keeps : (s : State) (o : Option (List ℕ)) → Keeps s.replay (compare_mac s o)
unfolding compare_mac
compare_mac-Keeps s none = fail-Keeps s.replay _ s
compare_mac-Keeps s (some mac) =
    if-Keeps s.replay _ _ _ (fail-Keeps s.replay _ s)
      (if-Keeps s.replay _ _ _ (kept _ refl) (stopped s))

unzip_with-Keeps :
    (v : Service) (n : ℕ) (s : State) (o : Option (List ℕ)) → Keeps s.replay (unzip_with v n s o)
unfolding unzip_with
unzip_with-Keeps v n s none = fail-Keeps s.replay _ _
unzip_with-Keeps v n s (some buf) =
    option-Keeps s.replay _ _ _ (fail-Keeps s.replay _ s) (λ d. kept _ refl)

decompress-Keeps : (v : Service) (call : Call) (s : State) → Keeps s.replay (decompress v call s)
unfolding decompress
decompress-Keeps v call s =
    if-Keeps s.replay _ _ _ (kept _ refl)
      (if-Keeps s.replay _ _ _ (fail-Keeps s.replay _ s) (unzip_with-Keeps v _ s _))

unpack_data-Keeps : (s : State) (p : List ℕ) → Keeps s.replay (unpack_data s p)
unfolding unpack_data
unpack_data-Keeps s p =
    if-Keeps s.replay _ _ _ (kept _ refl) (need-Keeps s.replay _ s p _ (λ d q. kept _ refl))

words-Keeps :
    (fields : List (ℕ → Msg → Msg)) (s : State) (p : List ℕ)
    → Keeps s.replay (words fields s p unpack_data)
unfolding words word
words-Keeps [] s p = unpack_data-Keeps s p
words-Keeps (field ∷ fields) s p = need-Keeps s.replay 4 s p _ (λ w q. words-Keeps fields _ q)

unpack_words-Keeps : (s : State) (p : List ℕ) → Keeps s.replay (unpack_words s p)
unfolding unpack_words
unpack_words-Keeps s p = words-Keeps _ s p

unpack_addr-Keeps : (n : ℕ) (s : State) (p : List ℕ) → Keeps s.replay (unpack_addr n s p)
unfolding unpack_addr
unpack_addr-Keeps n s p = need-Keeps s.replay n s p _ (λ addr q.
    if-Keeps s.replay (n == 4) _ _ (unpack_words-Keeps _ q)
      (if-Keeps s.replay (n == 0) _ _ (unpack_words-Keeps _ q) (fail-Keeps s.replay _ s)))

unpack_inner-Keeps : (s : State) → Keeps s.replay (unpack_inner s)
unfolding unpack_inner unpack_inner_from byte stir
unpack_inner-Keeps s =
    need-Keeps s.replay _ s _ _
      (λ salt p. need-Keeps s.replay 1 _ p _ (λ len q. unpack_addr-Keeps _ _ q))

pub unwrap-Keeps : (v : Service) (call : Call) (s : State) → Keeps s.replay (unwrap v call s)
unfolding unwrap validate_msg check_retry validate_mac
unwrap-Keeps v call s =
    seq
      (seq
        (seq
          (seq
            (seq
              (seq
                (seq
                  (seq
                    (seq (seq (refuse_if-Keeps _ _ s) (create-Keeps call))
                      (timestamp-Keeps call.time))
                    (authenticate-Keeps call.auth_recv))
                  (λ t. refuse_if-Keeps _ _ t))
                (unarmor-Keeps call))
              (unpack_outer-Keeps v call))
            (decrypt-Keeps v call))
          (λ t. compare_mac-Keeps t _))
        (decompress-Keeps v call))
      unpack_inner-Keeps
  where
    seq :
        {x : Result} {f : State → Result}
        → Keeps s.replay x
        → ((t : State) → Keeps t.replay (f t))
        → Keeps s.replay (and_then x f)
    seq {x = x} {f = f} h k = and_then-Keeps s.replay x f h k

pub validate_auth-Keeps : (v : Service) (s : State) → Keeps s.replay (validate_auth v s)
unfolding validate_auth
validate_auth-Keeps v s = refuse_if-Keeps _ _ s

check_time-Keeps : (v : Service) (s : State) → Keeps s.replay (check_time v s)
unfolding check_time
check_time-Keeps v s =
    if-Keeps s.replay (ltb s.msg.time1 (tmin v s.msg)) _ _ (fail-Keeps s.replay _ s)
      (if-Keeps s.replay (ltb (tmax s.msg) s.msg.time1) _ _ (fail-Keeps s.replay _ s) (kept s refl))

pub validate_time-Keeps : (v : Service) (s : State) → Keeps s.replay (validate_time v s)
unfolding validate_time
validate_time-Keeps v s = check_time-Keeps v _
