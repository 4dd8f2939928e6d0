-- ===== src/Encode/Whole.antt =====
-- The stages of src/munged/enc.c that make a credential against those of src/munged/dec.c that open it.
use mathlib.Core.Path.{subst}
use munge.Prelude.{
  ℕ, ◌≡◌, ◌<◌, refl, sym, ap, ◌==◌, ◌&&◌, not, arith, List, length, set, true, false,
}
use munge.Prelude.Bytes.{All, IsByte}
use munge.Message.{munge_none}
use munge.Cred.{Service, Call, State, Result, ok}
use munge.Decode.Checks.{decrypt, decompress}
use munge.Encode.Armor.{HasMemory}
use munge.Encode.Outer.{head_bytes}
use munge.Encode.Sealed.{
  Sound, Squeezed, not_asked, dropped, smaller, Encrypted, clear, secret, decrypt-clear,
  decrypt-secret, decompress-plain, decompress-smaller,
}

-- A stage of the decoder that ends well, keeps the message, and leaves these inner data.
pub record Restores (s : State) (r : Result) (inner : List ℕ) : Type 0 where
  pub end : State
  pub runs : r ≡ ok end
  pub msg : end.msg ≡ s.msg
  pub outer : end.cred.outer ≡ s.cred.outer
  pub mac : end.cred.mac ≡ s.cred.mac
  pub inner_back : end.cred.inner ≡ inner

-- What the later stages need of a compressed state.
pub record Shrunk (v : Service) (call : Call) (s t : State) : Type 0 where
  pub cipher : t.msg.cipher ≡ s.msg.cipher
  pub mac_type : t.msg.mac ≡ s.msg.mac
  pub iv : t.cred.iv ≡ s.cred.iv
  pub outer : t.cred.outer ≡ head_bytes s.msg.cipher s.msg.mac t.msg.zip s.cred.iv
  pub known : (not (t.msg.zip == munge_none) && not (v.zip_is_valid_type t.msg.zip)) ≡ false
  pub zip_byte : IsByte t.msg.zip
  pub bytes : All IsByte t.cred.inner
  pub some_inner : 0 < length t.cred.inner
  pub unzips :
      (u : State)
      → u.msg.zip ≡ t.msg.zip
      → u.cred.inner ≡ t.cred.inner
      → Restores u (decompress v call u) s.cred.inner

module _ (v : Service) (sound : Sound v) (call : Call) (rich : HasMemory call) where
  plain-Restores :
      (u : State) (inner : List ℕ)
      → (u.msg.zip == munge_none) ≡ true
      → u.cred.inner ≡ inner
      → Restores u (decompress v call u) inner
  plain-Restores u inner z e = record {
    end = u;
    runs = decompress-plain v sound call rich u z;
    msg = refl;
    outer = refl;
    mac = refl;
    inner_back = e;
  }

  pub Squeezed-Shrunk :
      (s t : State)
      → s.cred.outer ≡ head_bytes s.msg.cipher s.msg.mac s.msg.zip s.cred.iv
      → (not (s.msg.zip == munge_none) && not (v.zip_is_valid_type s.msg.zip)) ≡ false
      → IsByte s.msg.zip
      → All IsByte s.cred.inner
      → 0 < length s.cred.inner
      → Squeezed v s t
      → Shrunk v call s t
  Squeezed-Shrunk s _ h k b bytes l (not_asked e) = record {
    cipher = refl;
    mac_type = refl;
    iv = refl;
    outer = h;
    known = k;
    zip_byte = b;
    bytes = bytes;
    some_inner = l;
    unzips =
        λ u z i. plain-Restores u s.cred.inner (subst (λ n. (n == munge_none) ≡ true) (sym z) e) i;
  }
  Squeezed-Shrunk s _ h k b bytes l dropped = record {
    cipher = refl;
    mac_type = refl;
    iv = refl;
    outer = ap (λ o. set o 3 munge_none) h;
    known = refl;
    zip_byte = omega arith;
    bytes = bytes;
    some_inner = l;
    unzips = λ u z i.
        plain-Restores u s.cred.inner (subst (λ n. (n == munge_none) ≡ true) (sym z) refl) i;
  }
  Squeezed-Shrunk s _ h k b bytes l (smaller n e z made) = record {
    cipher = refl;
    mac_type = refl;
    iv = refl;
    outer = h;
    known = k;
    zip_byte = b;
    bytes = (sound.zip_bytes s.msg.zip n s.cred.inner e made).0;
    some_inner = (sound.zip_bytes s.msg.zip n s.cred.inner e made).1;
    unzips = λ u y i. record {
      end = record u { cred = record u.cred { inner = s.cred.inner } };
      runs =
          decompress-smaller v sound call rich u n s.cred.inner
            (subst (λ m. (m == munge_none) ≡ false) (sym y) z) l (rw (y, i) made);
      msg = refl;
      outer = refl;
      mac = refl;
      inner_back = refl;
    };
  }

  -- What the later stages need of an encrypted state.
  pub record Hidden (s t : State) : Type 0 where
    pub same_outer : t.cred.outer ≡ s.cred.outer
    pub same_mac : t.cred.mac ≡ s.cred.mac
    pub bytes : All IsByte t.cred.inner
    pub some_inner : 0 < length t.cred.inner
    pub decrypts :
        (u : State)
        → u.msg.cipher ≡ s.msg.cipher
        → u.msg.mac ≡ s.msg.mac
        → u.cred.mac ≡ s.cred.mac
        → u.cred.iv ≡ s.cred.iv
        → u.cred.inner ≡ t.cred.inner
        → Restores u (decrypt v call u) s.cred.inner

  pub Encrypted-Hidden :
      (s t : State)
      → All IsByte s.cred.inner
      → 0 < length s.cred.inner
      → Encrypted v s t
      → Hidden s t
  Encrypted-Hidden s _ bytes l (clear e) = record {
    same_outer = refl;
    same_mac = refl;
    bytes = bytes;
    some_inner = l;
    decrypts = λ u c a m i d. record {
      end = u;
      runs = decrypt-clear v sound call rich u (subst (λ n. (n == munge_none) ≡ true) (sym c) e);
      msg = refl;
      outer = refl;
      mac = refl;
      inner_back = d;
    };
  }
  Encrypted-Hidden s _ bytes l (secret dek e c m n key made) = record {
    same_outer = refl;
    same_mac = refl;
    bytes = (sound.encrypt_bytes s.msg.cipher dek s.cred.iv s.cred.inner e made).0;
    some_inner = (sound.encrypt_bytes s.msg.cipher dek s.cred.iv s.cred.inner e made).1;
    decrypts = λ u c' a' m' i' d'. record {
      end = record u { cred = record u.cred { dek = dek; inner = s.cred.inner } };
      runs =
          decrypt-secret v sound call rich u s.cred.inner dek (rw c' c) (rw a' m) (rw c' n)
            (rw (a', m') key) (rw (c', i', d') made);
      msg = refl;
      outer = refl;
      mac = refl;
      inner_back = refl;
    };
  }
