-- ===== src/Monitoring/Decimal.antt =====
-- `itoa` of internal/monitoring/store.go, and the number that is read from what it prints.
use backupeer.Prelude.{
  ℕ, zero, suc, ◌+◌, ◌-◌, ◌*◌, ◌/◌, ◌%◌, ◌^◌, ◌<◌, ◌≡◌, ◌∙◌, refl, sym, ap, true, is_digit,
  read_digits, read_number, some, List, [], ◌∷◌, arith, ltb, eqb, Bool-cases, inl, inr,
  if◌then◌else◌,
}

-- The rounds of the loop: each puts the last digit in front. The fuel is the place left in the buffer.
unfoldable pub itoa_loop : ℕ → ℕ → List ℕ → List ℕ
itoa_loop zero i buf = buf
itoa_loop (suc pos) i buf =
    let rest = itoa_loop pos (i / 10) ((b'0' + i % 10) ∷ buf) in if ltb 0 i then rest else buf

-- The buffer has 20 bytes; an `int` has at most 19 digits.
unfoldable pub itoa : ℕ → List ℕ
unfolding itoa_loop
itoa i = if eqb i 0 then b'0' ∷ [] else itoa_loop 20 i []

read_next :
    (n d i : ℕ) (buf : List ℕ)
    → d < 10
    → n * 10 + d ≡ i
    → read_digits n ((b'0' + d) ∷ buf) ≡ read_digits i buf
unfolding read_digits
read_next n d i buf small e =
    let digit : is_digit (b'0' + d) ≡ true = ground arith in
    let value : n * 10 + (b'0' + d - b'0') ≡ i = omega arith in rw (digit, value) refl

-- With place for all digits, the loop writes the number in front of the buffer: reading it gives what
-- reading the buffer after the number gives.
read_digits-itoa_loop :
    (pos i : ℕ) (buf : List ℕ)
    → i < 10 ^ pos
    → read_digits 0 (itoa_loop pos i buf) ≡ read_digits i buf
unfolding itoa_loop read_digits
read_digits-itoa_loop zero i buf h = let e : i ≡ 0 = omega arith in rw e refl
read_digits-itoa_loop (suc pos) i buf h = elim (Bool-cases (ltb 0 i)) [
  | inl more ↦
      let small : i / 10 < 10 ^ pos = omega arith in
      let ih = read_digits-itoa_loop pos (i / 10) ((b'0' + i % 10) ∷ buf) small in
      rw (more, itoa_loop) (ih ∙ read_next (i / 10) (i % 10) i buf (omega arith) (omega arith))
  | inr done ↦ let e : i ≡ 0 = ground arith in rw e refl
]

read_number-itoa_loop :
    (pos i c : ℕ) (buf : List ℕ)
    → read_number (itoa_loop pos i (c ∷ buf)) ≡ read_digits 0 (itoa_loop pos i (c ∷ buf))
unfolding itoa_loop read_number
read_number-itoa_loop zero i c buf = refl
read_number-itoa_loop (suc pos) i c buf = elim (Bool-cases (ltb 0 i)) [
  | inl more ↦ rw (more, itoa_loop) (read_number-itoa_loop pos (i / 10) (b'0' + i % 10) (c ∷ buf))
  | inr done ↦ rw (done, itoa_loop) refl
]

printed : (pos i : ℕ) → 0 < i → i < 10 ^ suc pos → read_number (itoa_loop (suc pos) i []) ≡ some i
unfolding itoa_loop read_digits
printed pos i more small =
    let test : ltb 0 i ≡ true = ground arith in
    let whole = read_digits-itoa_loop (suc pos) i [] small in
    let first = read_number-itoa_loop pos (i / 10) (b'0' + i % 10) [] in
    let opened : itoa_loop (suc pos) i [] ≡ itoa_loop pos (i / 10) ((b'0' + i % 10) ∷ []) =
      rw (test, itoa_loop) refl in
    ap read_number opened ∙ first ∙ sym (ap (read_digits 0) opened) ∙ whole

read_zero : (i : ℕ) → eqb i 0 ≡ true → read_number (b'0' ∷ []) ≡ some i
unfolding read_number
read_zero i nought = let e : i ≡ 0 = ground arith in rw e refl

-- The number that `itoa` prints for an `int` that is not negative is read back as that number.
pub read_number-itoa : (i : ℕ) → i < 2 ^ 63 → read_number (itoa i) ≡ some i
unfolding itoa
read_number-itoa i h = elim (Bool-cases (eqb i 0)) [
  | inl nought ↦ rw nought (read_zero i nought)
  | inr more ↦ rw more (printed 19 i (ground arith) (omega arith))
]
