-- ===== src/Message/Wire.antt =====
-- The packing of single fields in src/libcommon/m_msg.c: _pack, _unpack, _copy and _alloc, run over the
-- fields of a message one after the other.
use munge.Prelude.{
  ℕ, ◌+◌, ◌-◌, ◌*◌, ◌/◌, ◌%◌, ◌^◌, ◌==◌, ltb, leb, List, [], ◌∷◌, ◌++◌, length, take, drop, Bool,
  Option, none, some, if◌then◌else◌,
}

-- One line of `_msg_pack`: an integer of one or four bytes, or a string with its length. A null
-- pointer is an empty string.
pub data Item : Type 0 where
  u8 u32 : ℕ → Item
  str : ℕ → List ℕ → Item

-- A length is an `int`: one that is not representable is negative.
unfoldable pub is_negative : ℕ → Bool
is_negative n = leb (2 ^ 31) n

-- `htonl`
unfoldable pub msbf : ℕ → List ℕ
msbf n = n / 16777216 % 256 ∷ n / 65536 % 256 ∷ n / 256 % 256 ∷ n % 256 ∷ []

-- The bytes of an item that fits into the room that is left, with their number.
unfoldable pub pack_item : ℕ → Item → Option (List ℕ)
pack_item room (u8 n) = if ltb room 1 then none else some (n % 256 ∷ [])
pack_item room (u32 n) = if ltb room 4 then none else some (msbf n)
pack_item room (str n s) =
    if is_negative n then none else if ltb room n then none else some (take n s)

unfoldable pub pack_next : List ℕ → Option (List ℕ) → Option (List ℕ)
pack_next d none = none
pack_next d (some rest) = some (d ++ rest)

-- The chain of `_msg_pack`.
unfoldable pub pack_items : ℕ → List Item → Option (List ℕ)
pack_items room [] = some []
pack_items room (i ∷ items) = elim (pack_item room i) [
  | none ↦ none
  | some d ↦ pack_next d (pack_items (room - length d) items)
]

-- The buffers that `_alloc` asks for.
pub data Block : Type 0 where
  packet realm payload error_text auth_server auth_client : Block

-- One line or two of `_msg_unpack`: an integer is stored, a string is allocated and copied, or bytes are
-- copied into a buffer of a fixed size. Each is with what it does to the message.
pub data Slot (S : Type 0) : Type 0 where
  set8 set32 : (ℕ → S → S) → Slot S
  set_str : Block → (S → ℕ) → (S → Option (List ℕ)) → (Option (List ℕ) → S → S) → Slot S
  set_fixed : ℕ → (S → ℕ) → (List ℕ → S → S) → Slot S

-- `overrun` is a failed assertion, or a write behind the end of a buffer, which C does not define.
pub data Unpacked (S : Type 0) : Type 0 where
  fine : S → Unpacked S
  failed : S → Unpacked S
  no_memory : S → Unpacked S
  overrun : Unpacked S

-- `ntohl`
unfoldable pub of_msbf : ℕ → List ℕ → ℕ
of_msbf n [] = n
of_msbf n (b ∷ d) = of_msbf (n * 256 + b) d

unfoldable pub copy_str :
    {S : Type 0}
    → ℕ
    → (Option (List ℕ) → S → S)
    → S
    → List ℕ
    → (S → List ℕ → Unpacked S)
    → Unpacked S
copy_str n store s p next =
    if ltb (length p) n then failed s else next (store (some (take n p)) s) (drop n p)

-- `_alloc` asserts that the pointer is null.
unfoldable pub alloc_str :
    {S : Type 0}
    → Bool
    → ℕ
    → Option (List ℕ)
    → (Option (List ℕ) → S → S)
    → S
    → List ℕ
    → (S → List ℕ → Unpacked S)
    → Unpacked S
alloc_str mem n (some old) store s p next = overrun
alloc_str mem n none store s p next =
    if n == 0
    then next s p
    else if is_negative n
    then no_memory s
    else if mem
    then copy_str n store s p next
    else no_memory s

-- What is left of the data goes to `next`.
unfoldable pub unpack_slot :
    {S : Type 0} → (Block → Bool) → Slot S → S → List ℕ → (S → List ℕ → Unpacked S) → Unpacked S
unpack_slot mem (set8 store) s p next =
    if ltb (length p) 1 then failed s else next (store (of_msbf 0 (take 1 p)) s) (drop 1 p)
unpack_slot mem (set32 store) s p next =
    if ltb (length p) 4 then failed s else next (store (of_msbf 0 (take 4 p)) s) (drop 4 p)
unpack_slot mem (set_str block size cur store) s p next =
    alloc_str (mem block) (size s) (cur s) store s p next
unpack_slot mem (set_fixed room size store) s p next =
    if ltb (length p) (size s)
    then failed s
    else if ltb room (size s)
    then overrun
    else next (store (take (size s) p) s) (drop (size s) p)

-- The chain of `_msg_unpack`; that no data is left is an assertion, and `overrun` where it fails.
unfoldable pub unpack_slots :
    {S : Type 0} → (Block → Bool) → List (Slot S) → S → List ℕ → Unpacked S
unpack_slots mem [] s [] = fine s
unpack_slots mem [] s (b ∷ p) = overrun
unpack_slots mem (f ∷ slots) s p = unpack_slot mem f s p (λ t q. unpack_slots mem slots t q)
