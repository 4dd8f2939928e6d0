-- ===== src/Message/Fields.antt =====
-- Packing against unpacking, for lists of fields of src/libcommon/m_msg.c.
use munge.Prelude.{
  ℕ, suc, ◌+◌, ◌-◌, ◌*◌, ◌%◌, ◌^◌, ◌≡◌, ◌≤◌, ◌<◌, refl, sym, ap, ◌∙◌, ◌==◌, ltb, arith, List, [],
  ◌∷◌, ◌++◌, length, length-append, take, take_all, take-append_self, drop-append_self, Bool, true,
  false, Option, none, some,
}
use munge.Prelude.Bytes.{All}
use munge.Message.Wire.{
  Item, u8, u32, str, is_negative, msbf, pack_item, pack_next, pack_items, Block, Slot, set8, set32,
  set_str, set_fixed, Unpacked, fine, of_msbf, copy_str, alloc_str, unpack_slot, unpack_slots,
}

-- The bytes of a field, and of fields one after the other.
abbrev pub item_bytes : Item → List ℕ
item_bytes (u8 n) = n % 256 ∷ []
item_bytes (u32 n) = msbf n
item_bytes (str n s) = s

abbrev pub bytes_of : List Item → List ℕ
bytes_of [] = []
bytes_of (i ∷ items) = item_bytes i ++ bytes_of items

abbrev pub IsSized : Item → Type 0
IsSized (u8 n) = Unit
IsSized (u32 n) = Unit
IsSized (str n s) = (length s ≡ n) × (n < 2 ^ 31)

pack_item-item_bytes :
    (room : ℕ) (i : Item)
    → IsSized i
    → length (item_bytes i) ≤ room
    → pack_item room i ≡ some (item_bytes i)
unfolding pack_item is_negative
pack_item-item_bytes room (u8 n) h k = ground arith
pack_item-item_bytes room (u32 n) h k = let fits : 4 ≤ room = unfold msbf in k in ground arith
pack_item-item_bytes room (str n s) h k =
    let all : take n s ≡ s = take_all n s (omega (arith, h.0)) in
    let small : ltb room n ≡ false = ground (arith, h.0, k) in
    let positive : is_negative n ≡ false = ground (arith, h.1) in rw (positive, small, all) refl

-- Fields of the right sizes that fit into the room are packed.
pub pack_items-bytes_of :
    (room : ℕ) (items : List Item)
    → All IsSized items
    → length (bytes_of items) ≤ room
    → pack_items room items ≡ some (bytes_of items)
unfolding pack_items pack_next
pack_items-bytes_of room [] h k = refl
pack_items-bytes_of room (i ∷ items) h k =
    let sum = length-append (item_bytes i) (bytes_of items) in
    rw
      (
        pack_item-item_bytes room i h.0 (omega (arith, sum)),
        pack_items,
        pack_items-bytes_of (room - length (item_bytes i)) items h.1 (omega (arith, sum)),
      )
      refl

abbrev pub size_of : List Item → ℕ
size_of [] = 0
size_of (u8 n ∷ items) = 1 + size_of items
size_of (u32 n ∷ items) = 4 + size_of items
size_of (str n s ∷ items) = n + size_of items

pub length-bytes_of :
    (items : List Item) → All IsSized items → length (bytes_of items) ≡ size_of items
unfolding msbf
length-bytes_of [] h = refl
length-bytes_of (u8 n ∷ items) h = omega (arith, length-bytes_of items h.1)
length-bytes_of (u32 n ∷ items) h = omega (arith, length-bytes_of items h.1)
length-bytes_of (str n s ∷ items) h =
    omega (arith, length-append s (bytes_of items), h.0.0, length-bytes_of items h.1)

-- What `_alloc` and `_copy` leave in a pointer.
abbrev pub kept : List ℕ → Option (List ℕ) → Option (List ℕ)
kept [] old = old
kept (c ∷ s) old = some (c ∷ s)

-- What unpacking stores.
abbrev pub assign : {S : Type 0} → List (Slot S) → List Item → S → S
assign (set8 f ∷ slots) (u8 n ∷ items) s = assign slots items (f n s)
assign (set32 f ∷ slots) (u32 n ∷ items) s = assign slots items (f n s)
assign (set_str b size cur f ∷ slots) (str n x ∷ items) s =
    assign slots items (f (kept x (cur s)) s)
assign (set_fixed room size f ∷ slots) (str n x ∷ items) s = assign slots items (f x s)
assign slots items s = s

-- The fields that are unpacked are those that were packed, in their order and with their lengths; they
-- fit, and no pointer is set before.
pub data Agree {S : Type 0} : List (Slot S) → List Item → S → Type 0 where
  finished : {s : S} → Agree [] [] s
  then8 :
      {f : ℕ → S → S} {slots : List (Slot S)} {n : ℕ} {items : List Item} {s : S}
      → n < 2 ^ 8
      → Agree slots items (f n s)
      → Agree (set8 f ∷ slots) (u8 n ∷ items) s
  then32 :
      {f : ℕ → S → S} {slots : List (Slot S)} {n : ℕ} {items : List Item} {s : S}
      → n < 2 ^ 32
      → Agree slots items (f n s)
      → Agree (set32 f ∷ slots) (u32 n ∷ items) s
  then_str :
      {b : Block} {size : S → ℕ} {cur : S → Option (List ℕ)} {f : Option (List ℕ) → S → S}
      {slots : List (Slot S)} {n : ℕ} {x : List ℕ} {items : List Item} {s : S}
      → size s ≡ n
      → IsSized (str n x)
      → cur s ≡ none
      → f (cur s) s ≡ s
      → Agree slots items (f (kept x (cur s)) s)
      → Agree (set_str b size cur f ∷ slots) (str n x ∷ items) s
  then_fixed :
      {room : ℕ} {size : S → ℕ} {f : List ℕ → S → S} {slots : List (Slot S)} {n : ℕ} {x : List ℕ}
      {items : List Item} {s : S}
      → size s ≡ n
      → IsSized (str n x)
      → n ≤ room
      → Agree slots items (f x s)
      → Agree (set_fixed room size f ∷ slots) (str n x ∷ items) s

pub Agree-IsSized :
    {S : Type 0} {slots : List (Slot S)} {items : List Item} {s : S}
    → Agree slots items s
    → All IsSized items
Agree-IsSized finished = tt
Agree-IsSized (then8 h rest) = (tt, Agree-IsSized rest)
Agree-IsSized (then32 h rest) = (tt, Agree-IsSized rest)
Agree-IsSized (then_str h k i j rest) = (k, Agree-IsSized rest)
Agree-IsSized (then_fixed h k i rest) = (k, Agree-IsSized rest)

enough : (x p : List ℕ) → ltb (length (x ++ p)) (length x) ≡ false
enough x p = let sum = length-append x p in ground (arith, sum)

module _ {S : Type 0} (mem : Block → Bool) where
  unpack8 :
      (f : ℕ → S → S) (n : ℕ) (s : S) (p : List ℕ) (next : S → List ℕ → Unpacked S)
      → n < 2 ^ 8
      → unpack_slot mem (set8 f) s (n % 256 ∷ p) next ≡ next (f n s) p
  unfolding unpack_slot of_msbf
  unpack8 f n s p next h =
      let same : 0 * 256 + n % 256 ≡ n = omega arith in
      let there : ltb (suc (length p)) 1 ≡ false = ground arith in rw (there, same) refl

  unpack32 :
      (f : ℕ → S → S) (n : ℕ) (s : S) (p : List ℕ) (next : S → List ℕ → Unpacked S)
      → n < 2 ^ 32
      → unpack_slot mem (set32 f) s (msbf n ++ p) next ≡ next (f n s) p
  unfolding unpack_slot of_msbf msbf
  unpack32 f n s p next h =
      let there : ltb (suc (suc (suc (suc (length p))))) 4 ≡ false = ground arith in
      let same : of_msbf 0 (msbf n) ≡ n = omega arith in rw there (ap (λ k. next (f k s) p) same)

  alloc_full :
      (f : Option (List ℕ) → S → S) (a : ℕ) (x : List ℕ) (s : S) (p : List ℕ)
      (next : S → List ℕ → Unpacked S)
      → length (a ∷ x) < 2 ^ 31
      → alloc_str true (length (a ∷ x)) none f s ((a ∷ x) ++ p) next ≡ next (f (some (a ∷ x)) s) p
  unfolding alloc_str copy_str is_negative
  alloc_full f a x s p next h =
      let some_there : (length (a ∷ x) == 0) ≡ false = ground arith in
      let positive : is_negative (length (a ∷ x)) ≡ false = ground arith in
      rw
        (
          some_there,
          positive,
          enough (a ∷ x) p,
          take-append_self (a ∷ x) p,
          drop-append_self (a ∷ x) p,
        )
        refl

  unpack_str :
      (b : Block) (size : S → ℕ) (cur : S → Option (List ℕ)) (f : Option (List ℕ) → S → S) (n : ℕ)
      (x : List ℕ) (s : S) (p : List ℕ) (next : S → List ℕ → Unpacked S)
      → mem b ≡ true
      → size s ≡ n
      → IsSized (str n x)
      → cur s ≡ none
      → f (cur s) s ≡ s
      → unpack_slot mem (set_str b size cur f) s (x ++ p) next ≡ next (f (kept x (cur s)) s) p
  unfolding unpack_slot
  unpack_str b size cur f n [] s p next m h k c i =
      ap (λ l. alloc_str (mem b) l (cur s) f s p next) (h ∙ sym k.0)
      ∙ (ap (λ o. alloc_str (mem b) 0 o f s p next) c
          ∙ (unfold alloc_str in ap (λ t. next t p) (sym i)))
  unpack_str b size cur f n (a ∷ x) s p next m h k c i =
      ap (λ l. alloc_str (mem b) l (cur s) f s ((a ∷ x) ++ p) next) (h ∙ sym k.0)
      ∙ (ap (λ o. alloc_str (mem b) (length (a ∷ x)) o f s ((a ∷ x) ++ p) next) c
          ∙ (ap (λ g. alloc_str g (length (a ∷ x)) none f s ((a ∷ x) ++ p) next) m
              ∙ alloc_full f a x s p next (omega (arith, k.0, k.1))))

  unpack_fixed :
      (room : ℕ) (size : S → ℕ) (f : List ℕ → S → S) (n : ℕ) (x : List ℕ) (s : S) (p : List ℕ)
      (next : S → List ℕ → Unpacked S)
      → size s ≡ n
      → IsSized (str n x)
      → n ≤ room
      → unpack_slot mem (set_fixed room size f) s (x ++ p) next ≡ next (f x s) p
  unfolding unpack_slot
  unpack_fixed room size f n x s p next h k i =
      let fits : ltb room (length x) ≡ false = ground (arith, k.0, i) in
      rw (h ∙ sym k.0) (rw (enough x p, fits, take-append_self x p, drop-append_self x p) refl)

  -- What was packed is unpacked, and nothing is left of it.
  pub unpack_slots-bytes_of :
      {slots : List (Slot S)} {items : List Item} {s : S}
      → ((b : Block) → mem b ≡ true)
      → Agree slots items s
      → unpack_slots mem slots s (bytes_of items) ≡ fine (assign slots items s)
  unfolding unpack_slots
  unpack_slots-bytes_of rich finished = refl
  unpack_slots-bytes_of rich (then8 h rest) = unpack8 _ _ _ _ _ h ∙ unpack_slots-bytes_of rich rest
  unpack_slots-bytes_of rich (then32 h rest) =
      unpack32 _ _ _ _ _ h ∙ unpack_slots-bytes_of rich rest
  unpack_slots-bytes_of rich (then_str {b} h k i j rest) =
      unpack_str _ _ _ _ _ _ _ _ _ (rich b) h k i j ∙ unpack_slots-bytes_of rich rest
  unpack_slots-bytes_of rich (then_fixed h k i rest) =
      unpack_fixed _ _ _ _ _ _ _ _ h k i ∙ unpack_slots-bytes_of rich rest
