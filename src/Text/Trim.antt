-- ===== src/Text/Trim.antt =====
-- `trim` is idempotent: the two ends of a trimmed text are no whitespace.
use Prim.Native.String.{[], ◌∷◌}
use ipmaze.Base.{Char, String, ◌≡◌, refl, inl, inr, false, Bool-cases}
use ipmaze.Text.{is_whitespace, trim_start, close_end, trim_end, trim}

close_end_idem : (c : Char) (s : String) → trim_end s ≡ s → trim_end (close_end c s) ≡ close_end c s
unfolding trim_end
close_end_idem c [] h = elim (Bool-cases (is_whitespace c)) [
  | inl white ↦ rw white
  | inr dark ↦ rw dark (rw dark)
]
close_end_idem c (d ∷ s) h = rw h

trim_end_idem : (s : String) → trim_end (trim_end s) ≡ trim_end s
unfolding trim_end
trim_end_idem [] = refl
trim_end_idem (c ∷ s) = close_end_idem c (trim_end s) (trim_end_idem s)

-- The text is empty or begins with a character that is no whitespace.
abbrev pub IsFlush : String → Type 0
IsFlush [] = Unit
IsFlush (c ∷ s) = is_whitespace c ≡ false

trim_start-IsFlush : (s : String) → IsFlush (trim_start s)
unfolding trim_start
trim_start-IsFlush [] = tt
trim_start-IsFlush (c ∷ s) = elim (Bool-cases (is_whitespace c)) [
  | inl white ↦ rw white (trim_start-IsFlush s)
  | inr dark ↦ rw dark dark
]

trim_start_of_IsFlush : (s : String) → IsFlush s → trim_start s ≡ s
unfolding trim_start
trim_start_of_IsFlush [] h = refl
trim_start_of_IsFlush (c ∷ s) h = rw h

close_end-IsFlush : (c : Char) (s : String) → is_whitespace c ≡ false → IsFlush (close_end c s)
close_end-IsFlush c [] h = rw h h
close_end-IsFlush c (d ∷ s) h = h

trim_end-IsFlush : (s : String) → IsFlush s → IsFlush (trim_end s)
unfolding trim_end
trim_end-IsFlush [] h = tt
trim_end-IsFlush (c ∷ s) h = close_end-IsFlush c (trim_end s) h

pub trim-IsFlush : (s : String) → IsFlush (trim s)
unfolding trim
trim-IsFlush s = trim_end-IsFlush (trim_start s) (trim_start-IsFlush s)

pub trim-trim : (s : String) → trim (trim s) ≡ trim s
unfolding trim
trim-trim s =
    rw (trim_start_of_IsFlush (trim_end (trim_start s)) (trim-IsFlush s))
      (trim_end_idem (trim_start s))
