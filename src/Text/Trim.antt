-- ===== src/Text/Trim.antt =====
-- Laws of strings.TrimSpace. The trim at the right end is read as a recursion of its own.
use mathlib.Core.List.{reverse-cons, reverse-append}
use pokoinpos.Prelude.{
  ℕ, ◌≡◌, refl, Bool, true, false, ◌&&◌, not, [], ◌∷◌, ◌++◌, map, reverse, arith, if◌then◌else◌,
}
use pokoinpos.Text.{Text, is_empty, is_space, trim_left, trim_space, upper_byte, to_upper}

trim_right : Text → Text
trim_right [] = []
trim_right (c ∷ s) = let rest = trim_right s in if is_empty rest && is_space c then [] else c ∷ rest

trim_left-snoc :
    (s : Text) (c : ℕ)
    → trim_left (s ++ c ∷ [])
      ≡ (if is_empty (trim_left s) then trim_left (c ∷ []) else trim_left s ++ c ∷ [])
unfolding trim_left
trim_left-snoc [] c = refl
trim_left-snoc (d ∷ s) c = ground (arith, trim_left-snoc s c)

is_empty-snoc : (t : Text) (c : ℕ) → is_empty (t ++ c ∷ []) ≡ false
is_empty-snoc [] c = refl
is_empty-snoc (d ∷ t) c = refl

-- One more character in front, on the two ways to trim at the right.
trim_right_step :
    (c : ℕ) (t : Text)
    → reverse (if is_empty t then trim_left (c ∷ []) else t ++ c ∷ [])
      ≡ (if is_empty (reverse t) && is_space c then [] else c ∷ reverse t)
trim_right_step c [] = unfold trim_left in ground arith
trim_right_step c (d ∷ t) = simp (reverse-append, reverse-cons, is_empty-snoc)

trim_right-cons :
    (c : ℕ) (s : Text)
    → trim_right (c ∷ s) ≡ (if is_empty (trim_right s) && is_space c then [] else c ∷ trim_right s)
unfolding trim_right
trim_right-cons c s = refl

trim_right_lem : (s : Text) → reverse (trim_left (reverse s)) ≡ trim_right s
trim_right_lem [] = unfold trim_left trim_right in refl
trim_right_lem (c ∷ s) =
    rw (reverse-cons, trim_left-snoc)
      (rw (trim_right-cons c s, ← trim_right_lem s) (trim_right_step c (trim_left (reverse s))))

trim_space_lem : (s : Text) → trim_space s ≡ trim_right (trim_left s)
unfolding trim_space
trim_space_lem s = trim_right_lem (trim_left s)

-- A text that begins with no space.
begins_clean : Text → Bool
begins_clean [] = true
begins_clean (c ∷ s) = not (is_space c)

begins_clean-trim_left : (s : Text) → begins_clean (trim_left s) ≡ true
unfolding trim_left begins_clean
begins_clean-trim_left [] = refl
begins_clean-trim_left (c ∷ s) = ground (arith, begins_clean-trim_left s)

trim_left_id : (s : Text) → begins_clean s ≡ true → trim_left s ≡ s
unfolding trim_left begins_clean
trim_left_id [] h = refl
trim_left_id (c ∷ s) h = ground arith

begins_clean-trim_right : (s : Text) → begins_clean s ≡ true → begins_clean (trim_right s) ≡ true
unfolding trim_right begins_clean
begins_clean-trim_right [] h = refl
begins_clean-trim_right (c ∷ s) h = ground arith

trim_right_idem : (s : Text) → trim_right (trim_right s) ≡ trim_right s
unfolding trim_right
trim_right_idem [] = refl
trim_right_idem (c ∷ s) = ground (arith, trim_right_idem s)

pub trim_space_idem : (s : Text) → trim_space (trim_space s) ≡ trim_space s
trim_space_idem s =
    let clean = begins_clean-trim_right (trim_left s) (begins_clean-trim_left s) in
    simp trim_space_lem
      (rw (trim_left_id (trim_right (trim_left s)) clean) (trim_right_idem (trim_left s)))

is_space-upper : (c : ℕ) → is_space (upper_byte c) ≡ is_space c
unfolding is_space upper_byte
is_space-upper c = ground arith

trim_left-upper : (s : Text) → trim_left (map upper_byte s) ≡ map upper_byte (trim_left s)
unfolding trim_left
trim_left-upper [] = refl
trim_left-upper (c ∷ s) = ground (arith, trim_left-upper s, is_space-upper c)

is_empty-map : (f : ℕ → ℕ) (s : Text) → is_empty (map f s) ≡ is_empty s
is_empty-map f [] = refl
is_empty-map f (c ∷ s) = refl

trim_right-upper : (s : Text) → trim_right (map upper_byte s) ≡ map upper_byte (trim_right s)
unfolding trim_right
trim_right-upper [] = refl
trim_right-upper (c ∷ s) = rw (trim_right-upper s, is_empty-map, is_space-upper) (ground arith)

pub trim_space-to_upper : (s : Text) → trim_space (to_upper s) ≡ to_upper (trim_space s)
unfolding to_upper
trim_space-to_upper s = simp (trim_space_lem, trim_left-upper, trim_right-upper)

-- A text without a space loses nothing.
unfoldable pub has_no_space : Text → Bool
unfolding is_space
has_no_space [] = true
has_no_space (c ∷ s) = not (is_space c) && has_no_space s

trim_right_id : (s : Text) → has_no_space s ≡ true → trim_right s ≡ s
unfolding trim_right has_no_space
trim_right_id [] h = refl
trim_right_id (c ∷ s) h = ground (arith, trim_right_id s)

begins_clean-no_space : (s : Text) → has_no_space s ≡ true → begins_clean s ≡ true
unfolding begins_clean has_no_space
begins_clean-no_space [] h = refl
begins_clean-no_space (c ∷ s) h = ground arith

pub trim_space_id : (s : Text) → has_no_space s ≡ true → trim_space s ≡ s
trim_space_id s h =
    rw (trim_space_lem s, trim_left_id s (begins_clean-no_space s h)) (trim_right_id s h)
