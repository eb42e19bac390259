-- ===== src/Nullable/Fixpoint.antt =====
-- The loop ends at a fixed point: one more round would add no rule.
use ebnf.Base.{
  has, has-append, has-concat_self, ℕ, zero, suc, ◌<◌, ◌≤◌, ◌≡◌, refl, sym, subst, Bool, true,
  false, Bool-cases, ◌⊎◌, inl, inr, All, ap, List, [], ◌∷◌, ◌++◌, arith, if◌then◌else◌, Text,
  length,
}
use ebnf.Ir.{Production}
use ebnf.Nullable.{some_alt, Pass, visit, pass, nullable_loop, nullable_rules}

-- The rules whose names are not in the set.
abbrev missing : List Text → List Production → ℕ
missing ms [] = 0
missing ms (p ∷ ps) = if has p.name ms then missing ms ps else suc (missing ms ps)

missing-le : (ms : List Text) (ps : List Production) → missing ms ps ≤ length ps
missing-le ms [] = omega arith
missing-le ms (p ∷ ps) = ground (arith, missing-le ms ps)

missing-append-le :
    (ms ns : List Text) (ps : List Production) → missing (ms ++ ns) ps ≤ missing ms ps
missing-append-le ms ns [] = omega arith
missing-append-le ms ns (p ∷ ps) =
    ground (arith, has-append p.name ms ns, missing-append-le ms ns ps)

-- A rule of the list whose name is new makes the count fall.
abbrev Listed : Text → List Production → Type 0
Listed name [] = ⊥
Listed name (p ∷ ps) = (p.name ≡ name) ⊎ Listed name ps

missing-concat-lt :
    (name : Text) (ms : List Text) (ps : List Production)
    → Listed name ps
    → has name ms ≡ false
    → missing (ms ++ name ∷ []) ps < missing ms ps
missing-concat-lt name ms [] l e = elim l [ ]
missing-concat-lt name ms (p ∷ ps) (inl same) e =
    rw same
      (rw e (rw (has-concat_self name ms) (omega (arith, missing-append-le ms (name ∷ []) ps))))
missing-concat-lt name ms (p ∷ ps) (inr later) e =
    ground (arith, has-append p.name ms (name ∷ []), missing-concat-lt name ms ps later e)

abbrev pub state : List Text → Bool → Pass
state ms c = record { nullable = ms; changed = c }

-- The three ways through the body of the loop.
pub visit-old : (s : Pass) (p : Production) → has p.name s.nullable ≡ true → visit s p ≡ s
unfolding visit
visit-old s p old = rw old

pub visit-empty :
    (s : Pass) (p : Production)
    → has p.name s.nullable ≡ false
    → some_alt p.alts s.nullable ≡ true
    → visit s p ≡ state (s.nullable ++ p.name ∷ []) true
unfolding visit
visit-empty s p new empty = rw new (rw empty)

pub visit-solid : (s : Pass) (p : Production) → some_alt p.alts s.nullable ≡ false → visit s p ≡ s
unfolding visit
visit-solid s p solid = ground arith

-- A pass over some of the rules leaves the state alone, or reports a change and makes the
-- count of missing rules fall.
abbrev Progress : List Production → Pass → Pass → Type 0
Progress ps s t = (t ≡ s) ⊎ ((t.changed ≡ true) × (missing t.nullable ps < missing s.nullable ps))

Progress-fall :
    (ps : List Production) (s u t : Pass)
    → u.changed ≡ true
    → missing u.nullable ps < missing s.nullable ps
    → Progress ps u t
    → Progress ps s t
Progress-fall ps s u t c h (inl same) = inr (rw same (c, h))
Progress-fall ps s u t c h (inr (c', fewer)) = inr (c', omega arith)

pass-Progress :
    (ps qs : List Production) (s : Pass)
    → All (λ q. Listed q.name ps) qs
    → Progress ps s (pass s qs)
unfolding pass
pass-Progress ps [] s l = inl refl
pass-Progress ps (q ∷ qs) s l = elim (Bool-cases (has q.name s.nullable)) [
  | inl old ↦
      subst (λ v. Progress ps s (pass v qs)) (sym (visit-old s q old)) (pass-Progress ps qs s l.1)
  | inr new ↦ elim (Bool-cases (some_alt q.alts s.nullable)) [
    | inl empty ↦
        let added = state (s.nullable ++ q.name ∷ []) true in
        subst (λ v. Progress ps s (pass v qs)) (sym (visit-empty s q new empty))
          (Progress-fall ps s added (pass added qs) refl
            (missing-concat-lt q.name s.nullable ps l.0 new) (pass-Progress ps qs added l.1))
    | inr solid ↦
        subst (λ v. Progress ps s (pass v qs)) (sym (visit-solid s q solid))
          (pass-Progress ps qs s l.1)
  ]
]

pass-changed_true :
    (qs : List Production) (ms : List Text) → (pass (state ms true) qs).changed ≡ true
unfolding pass visit
pass-changed_true [] ms = refl
pass-changed_true (q ∷ qs) ms =
    ground (arith, pass-changed_true qs ms, pass-changed_true qs (ms ++ q.name ∷ []))

-- No rule outside the set has an alternative that the set makes empty.
abbrev pub IsClosed : List Text → List Production → Type 0
IsClosed ms ps = All (λ p. some_alt p.alts ms ≡ true → has p.name ms ≡ true) ps

-- A pass that changes nothing finds a closed set.
pub pass-IsClosed :
    (qs : List Production) (ms : List Text)
    → (pass (state ms false) qs).changed ≡ false
    → IsClosed ms qs
unfolding pass
pass-IsClosed [] ms e = tt
pass-IsClosed (q ∷ qs) ms e = elim (Bool-cases (has q.name ms)) [
  | inl old ↦
      let e' = subst (λ v. (pass v qs).changed ≡ false) (visit-old (state ms false) q old) e in
      (λ _. old, pass-IsClosed qs ms e')
  | inr new ↦ elim (Bool-cases (some_alt q.alts ms)) [
    | inl empty ↦
        let e' =
          subst (λ v. (pass v qs).changed ≡ false) (visit-empty (state ms false) q new empty) e in
        cc (e', pass-changed_true qs (ms ++ q.name ∷ []))
    | inr solid ↦
        let e' =
          subst (λ v. (pass v qs).changed ≡ false) (visit-solid (state ms false) q solid) e in
        (λ h. cc, pass-IsClosed qs ms e')
  ]
]

All-Listed-cons :
    (p : Production) (qs ps : List Production)
    → All (λ q. Listed q.name ps) qs
    → All (λ q. Listed q.name (p ∷ ps)) qs
All-Listed-cons p [] ps h = tt
All-Listed-cons p (q ∷ qs) ps h = (inr h.0, All-Listed-cons p qs ps h.1)

All-Listed : (ps : List Production) → All (λ q. Listed q.name ps) ps
All-Listed [] = tt
All-Listed (p ∷ ps) = (inl refl, All-Listed-cons p ps ps (All-Listed ps))

nullable_loop-fixed :
    (f : ℕ) (ps : List Production) (ms : List Text)
    → missing ms ps < f
    → (pass (state (nullable_loop f ps ms) false) ps).changed ≡ false
unfolding nullable_loop
nullable_loop-fixed zero ps ms h = absurd (omega arith)
nullable_loop-fixed (suc f) ps ms h = elim (pass-Progress ps ps (state ms false) (All-Listed ps)) [
  | inl same ↦ rw same (ap (λ (s : Pass). s.changed) same)
  | inr (again, fewer) ↦
      rw again (nullable_loop-fixed f ps (pass (state ms false) ps).nullable (omega arith))
]

-- The analysis ends at a fixed point: one more pass over the rules changes nothing. So the rounds
-- that the loop is given are enough for any grammar.
pub nullable_rules-fixed :
    (ps : List Production) → (pass (state (nullable_rules ps) false) ps).changed ≡ false
unfolding nullable_rules
nullable_rules-fixed ps =
    nullable_loop-fixed (suc (length ps)) ps [] (omega (arith, missing-le [] ps))

pub nullable_rules-IsClosed : (ps : List Production) → IsClosed (nullable_rules ps) ps
nullable_rules-IsClosed ps = pass-IsClosed ps (nullable_rules ps) (nullable_rules-fixed ps)
