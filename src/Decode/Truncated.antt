-- ===== src/Decode/Truncated.antt =====
-- dec_unpack_outer on a credential that ends within its MAC.
use munge.Prelude.{ℕ, ◌<◌, ◌≤◌, ◌≡◌, ◌∙◌, arith, List, ◌∷◌, length, true, false, ltb, ◌==◌}
use munge.Cred.{Service, Call, State, overrun}
use munge.Encode.RoundTrip.{byte_first}
use munge.Decode.Unpack.{
  unpack_mac, unpack_iv, unpack_realm, unpack_zip, unpack_mac_type, unpack_cipher, unpack_outer,
}

unpack_mac_short : (m : ℕ) (s : State) (l p : List ℕ) → length p < m → unpack_mac m s l p ≡ overrun
unfolding unpack_mac
unpack_mac_short m s l p short = ground (arith, short)

unpack_zip_short :
    (v : Service) (call : Call) (m : ℕ) (s : State) (p : List ℕ)
    → length p < m
    → unpack_zip v call 0 m s (0 ∷ 0 ∷ p) ≡ overrun
unfolding unpack_zip unpack_realm unpack_iv
unpack_zip_short v call m s p short =
    byte_first s 0 (0 ∷ p) _ ∙ (byte_first _ 0 p _ ∙ unpack_mac_short m _ _ p short)

unpack_mac_type_short :
    (v : Service) (call : Call) (a : ℕ) (s : State) (p : List ℕ)
    → v.mac_map_enum a ≡ true
    → v.cipher_key_size s.msg.cipher ≤ v.mac_size a
    → length p < v.mac_size a
    → unpack_mac_type v call 0 s (a ∷ 0 ∷ 0 ∷ p) ≡ overrun
unfolding unpack_mac_type
unpack_mac_type_short v call a s p known enough short =
    let sized : (v.mac_size a == 0) ≡ false = ground arith in
    let strong : ltb (v.mac_size a) (v.cipher_key_size s.msg.cipher) ≡ false = ground arith in
    byte_first s a (0 ∷ 0 ∷ p) _
    ∙ rw (known, sized, strong) (unpack_zip_short v call (v.mac_size a) _ p short)

-- `dec_unpack_outer` does not check that the MAC is there: for every credential without encryption,
-- compression and realm whose MAC type is valid and that has fewer bytes left than the MAC is long, it
-- copies bytes from behind the end of the data.
pub unpack_outer-overrun :
    (v : Service) (call : Call) (a : ℕ) (s : State) (p : List ℕ)
    → v.mac_map_enum a ≡ true
    → v.cipher_key_size 0 ≤ v.mac_size a
    → length p < v.mac_size a
    → unpack_outer v call (record s { cred = record s.cred { outer = 3 ∷ 0 ∷ a ∷ 0 ∷ 0 ∷ p } })
      ≡ overrun
unfolding unpack_outer unpack_cipher
unpack_outer-overrun v call a s p known enough short =
    byte_first _ 3 (0 ∷ a ∷ 0 ∷ 0 ∷ p) _
    ∙ (byte_first _ 0 (a ∷ 0 ∷ 0 ∷ p) _ ∙ unpack_mac_type_short v call a _ p known enough short)
