-- ===== src/Interview/Context/Selection.antt =====
-- What the loop over the turns keeps true.
use mathlib.Core.List.{reverse, reverse-cons, append_assoc}
use gbsa_aws_project.Base.{
  ℕ, ◌+◌, ◌≤◌, ◌≡◌, ◌↔◌, subst, false, List, [], ◌∷◌, ◌++◌, ltb, length, arith, Bool-cases, inl,
  inr,
}
use gbsa_aws_project.Base.Exec.{ok, Result-cases}
use gbsa_aws_project.Interview.Text.{Text}
use gbsa_aws_project.Interview.Context.{
  RecentTurn, Selection, token_cost, render_turn, step, select,
}

-- `lines` are those of some of the turns, in their order.
pub data Kept : List RecentTurn → List (Text × Text) → Type 0 where
  nothing : Kept [] []
  keep :
      {t : RecentTurn} {turns : List RecentTurn} {line : Text × Text} {lines : List (Text × Text)}
      → render_turn t ≡ ok line
      → Kept turns lines
      → Kept (t ∷ turns) (line ∷ lines)
  skip :
      {t : RecentTurn} {turns : List RecentTurn} {lines : List (Text × Text)}
      → Kept turns lines
      → Kept (t ∷ turns) lines

Kept-length :
    {turns : List RecentTurn} {lines : List (Text × Text)}
    → Kept turns lines
    → length lines ≤ length turns
Kept-length nothing = omega arith
Kept-length (keep e k) = let h = Kept-length k in omega arith
Kept-length (skip k) = let h = Kept-length k in omega arith

-- The tokens of the lines.
abbrev pub total_cost : List (Text × Text) → ℕ
total_cost [] = 0
total_cost (line ∷ lines) = token_cost line.1 + total_cost lines

-- `s` is a selection of the turns that were looked at, on top of `base` tokens.
pub record Selects (max_tokens base : ℕ) (seen : List RecentTurn) (s : Selection) : Type 0 where
  pub kept : Kept seen s.0
  pub used : s.1 ≡ base + total_cost s.0
  pub fits : s.1 ≤ max_tokens
  pub complete : (s.2 ≡ false) ↔ (length s.0 ≡ length seen)

step-Selects :
    (max_tokens base : ℕ) (seen : List RecentTurn) (t : RecentTurn) (line : Text × Text)
    (s : Selection)
    → render_turn t ≡ ok line
    → Selects max_tokens base seen s
    → Selects max_tokens base (t ∷ seen) (step max_tokens line s)
step-Selects max_tokens base seen t line (selected, used, truncated) e h =
    elim (Bool-cases (ltb max_tokens (used + token_cost line.1))) [
      | inl over ↦
          let short = Kept-length h.kept in
          rw over (record {
            kept = skip h.kept;
            used = h.used;
            fits = h.fits;
            complete = (λ p. ground arith, λ p. absurd (ground arith));
          })
      | inr room ↦ rw room (record {
        kept = keep e h.kept;
        used = ground (arith, h.used);
        fits = ground arith;
        complete = (λ p. ground (arith, h.complete.0), λ p. ground (arith, h.complete.1));
      })
    ]

pub select-Selects :
    (max_tokens base : ℕ) (seen turns : List RecentTurn) (s s' : Selection)
    → Selects max_tokens base seen s
    → select max_tokens turns s ≡ ok s'
    → Selects max_tokens base (reverse turns ++ seen) s'
unfolding select
select-Selects max_tokens base seen [] s s' h e =
    let p : s ≡ s' = ground arith in subst (Selects max_tokens base seen) {x = s} p h
select-Selects max_tokens base seen (t ∷ turns) s s' h e = elim (Result-cases (render_turn t)) [
  | inl (line, r) ↦
      let rest =
        select-Selects max_tokens base (t ∷ seen) turns (step max_tokens line s) s'
          (step-Selects max_tokens base seen t line s r h) (rw r at e) in
      rw (reverse-cons t turns, append_assoc (reverse turns) (t ∷ []) seen) rest
  | inr (x, failed) ↦ absurd (ground arith)
]
