-- ===== src/Hash/Text.antt =====
-- hash_key_string of src/munged/hash.c.
use munge.Prelude.{ℕ, ◌%◌, ◌^◌, ◌≡◌, refl, ◌∙◌, arith, List, [], ◌∷◌, ◌++◌}
use munge.Hash.{turn, key_string, key_string_from}

-- One turn shifts by five bits: what agreed in the low bits agrees in five bits more.
turn_5 : (h k p : ℕ) → turn h p % 2 ^ 5 ≡ turn k p % 2 ^ 5
unfolding turn
turn_5 h k p = omega arith

turn_10 : (h k p : ℕ) → h % 2 ^ 5 ≡ k % 2 ^ 5 → turn h p % 2 ^ 10 ≡ turn k p % 2 ^ 10
unfolding turn
turn_10 h k p e = omega arith

turn_15 : (h k p : ℕ) → h % 2 ^ 10 ≡ k % 2 ^ 10 → turn h p % 2 ^ 15 ≡ turn k p % 2 ^ 15
unfolding turn
turn_15 h k p e = omega arith

turn_20 : (h k p : ℕ) → h % 2 ^ 15 ≡ k % 2 ^ 15 → turn h p % 2 ^ 20 ≡ turn k p % 2 ^ 20
unfolding turn
turn_20 h k p e = omega arith

turn_25 : (h k p : ℕ) → h % 2 ^ 20 ≡ k % 2 ^ 20 → turn h p % 2 ^ 25 ≡ turn k p % 2 ^ 25
unfolding turn
turn_25 h k p e = omega arith

turn_30 : (h k p : ℕ) → h % 2 ^ 25 ≡ k % 2 ^ 25 → turn h p % 2 ^ 30 ≡ turn k p % 2 ^ 30
unfolding turn
turn_30 h k p e = omega arith

turn_all : (h k p : ℕ) → h % 2 ^ 30 ≡ k % 2 ^ 30 → turn h p ≡ turn k p
unfolding turn
turn_all h k p e = omega arith

-- Seven turns forget where they began.
turns_forget :
    (h k a b c d e f g : ℕ)
    → turn (turn (turn (turn (turn (turn (turn h a) b) c) d) e) f) g
      ≡ turn (turn (turn (turn (turn (turn (turn k a) b) c) d) e) f) g
turns_forget h k a b c d e f g =
    turn_all _ _ g
      (turn_30 _ _ f (turn_25 _ _ e (turn_20 _ _ d (turn_15 _ _ c (turn_10 _ _ b (turn_5 h k a))))))

key_string_from-append :
    (h : ℕ) (s t : List ℕ) → key_string_from h (s ++ t) ≡ key_string_from (key_string_from h s) t
unfolding key_string_from
key_string_from-append h [] t = refl
key_string_from-append h (c ∷ s) t = key_string_from-append (turn h c) s t

-- `hash_key_string` multiplies by 32, not by its `multiplier` 31, so only the last seven characters
-- of a string count: whatever stands before them, the hash value is the same.
pub key_string_forgets :
    (s : List ℕ) (a b c d e f g : ℕ)
    → let last = a ∷ b ∷ c ∷ d ∷ e ∷ f ∷ g ∷ [] in key_string (s ++ last) ≡ key_string last
unfolding key_string
key_string_forgets s a b c d e f g =
    key_string_from-append 0 s (a ∷ b ∷ c ∷ d ∷ e ∷ f ∷ g ∷ []) ∙ last_turns (key_string_from 0 s)
  where
    last_turns :
        (h : ℕ)
        → key_string_from h (a ∷ b ∷ c ∷ d ∷ e ∷ f ∷ g ∷ [])
          ≡ key_string_from 0 (a ∷ b ∷ c ∷ d ∷ e ∷ f ∷ g ∷ [])
    last_turns h = turns_forget h 0 a b c d e f g
