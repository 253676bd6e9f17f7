-- ===== src/Crypto/Puzzle.antt =====
-- The answer of the strip_slide puzzle (internal/cryptoops/cryptoops.go).
use wilt_key.Prelude.{
  ℕ, ◌+◌, ◌-◌, ◌%◌, ◌<◌, ◌≡◌, ◌∙◌, inl, inr, Bool-cases, leb→le, String, arith, leb, if◌then◌else◌,
}
use native.Mathlib.Nat.{mod-lt, mod-eq_of_lt, mod-eq-sub-mod}
use wilt_key.Prelude.Text.{concat}
use wilt_key.Crypto.{Primitives, bytes, head, puzzle_answer_from_seed}

-- The rotation k that the client shows the sprite in.
abbrev pub shown_rotation : Primitives → String → ℕ → ℕ
shown_rotation p seed strips = head (p.sha256 (bytes (concat seed "k"))) % strips

-- `a` mod `s` for `a` below `2 s`.
mod_twice : (a s : ℕ) → 0 < s → a < s + s → a % s ≡ (if leb s a then a - s else a)
mod_twice a s h k = elim (Bool-cases (leb s a)) [
  | inl over ↦ rw over (mod-eq-sub-mod (leb→le s a over) ∙ mod-eq_of_lt (ground arith))
  | inr small ↦ rw small (mod-eq_of_lt (ground arith))
]

-- For every seed, exactly one rotation u below the number of strips brings the sprite back,
-- (k + u) mod strips = 0, and it is the one that the relay expects.
pub puzzle_answer_unique :
    (p : Primitives) (seed : String) (strips u : ℕ)
    → 0 < strips
    → u < strips
    → (puzzle_answer_from_seed p seed strips < strips)
      × ((shown_rotation p seed strips + puzzle_answer_from_seed p seed strips) % strips ≡ 0)
      × ((shown_rotation p seed strips + u) % strips ≡ 0
          → u ≡ puzzle_answer_from_seed p seed strips)
unfolding puzzle_answer_from_seed
puzzle_answer_unique p seed strips u h hu =
    let k = shown_rotation p seed strips in
    let bound : k < strips = mod-lt (head (p.sha256 (bytes (concat seed "k")))) h in
    ground (
      arith,
      bound,
      mod_twice (k + u) strips h (omega (arith, bound)),
      mod_twice k strips h (omega (arith, bound)),
      mod_twice strips strips h (omega arith),
    )
