-- ===== src/Check.antt =====
-- The checks on a parsed grammar (ts/src/converter.ts: `checkDuplicates` and `checkNullableAlts`).
pub mod Duplicates
pub mod Ambiguity
use ebnf.Base.{
  has, ℕ, zero, suc, ◌+◌, Bool, true, false, List, [], ◌∷◌, ◌++◌, ltb, if◌then◌else◌, Text,
}
use ebnf.Ir.{
  Element, term, regex, ref, group, opt, star, plus, rep, token, prose, Sequence, nil, cons, Alts,
  no_alts, alt, Production,
}
use ebnf.Error.{
  Reason, Result, ok, ◌>>=◌, ◌>>◌, throw, nowhere, duplicate_rule, ambiguous_rule, ambiguous_group,
}
use ebnf.Nullable.{alt_derives_empty, nullable_rules}

-- The loop of `checkDuplicates`, with the names seen so far.
unfoldable pub check_seen : List Text → List Production → Result (Unit {0})
unfolding has
check_seen seen [] = ok tt
check_seen seen (p ∷ prods) =
    let rest = check_seen (seen ++ p.name ∷ []) prods in
    if has p.name seen then throw (duplicate_rule p.name) nowhere else rest

unfoldable pub check_duplicates : List Production → Result (Unit {0})
unfolding check_seen
check_duplicates prods = check_seen [] prods

-- `alts.filter(altNullable).length`
unfoldable pub count_nullable : Alts → List Text → ℕ
unfolding alt_derives_empty
count_nullable no_alts nullable = 0
count_nullable (alt a alts) nullable =
    (if alt_derives_empty a nullable then 1 else 0) + count_nullable alts nullable

-- `if (1 < n) complain(subject, n)`
unfoldable pub complain_if_many : (ℕ → Reason) → ℕ → Result (Unit {0})
complain_if_many subject n = if ltb 1 n then throw (subject n) nowhere else ok tt

-- `checkGroups`, over an element, a sequence and the alternatives of a choice.
unfoldable mutual
  unfolding count_nullable complain_if_many

  pub check_groups : Element → Text → List Text → Result (Unit {0})
  check_groups (group alts sp) rule nullable = do
    complain_if_many (ambiguous_group rule) (count_nullable alts nullable)
    check_alts alts rule nullable
  check_groups (opt inner) rule nullable = check_groups inner rule nullable
  check_groups (star inner) rule nullable = check_groups inner rule nullable
  check_groups (plus inner) rule nullable = check_groups inner rule nullable
  check_groups (rep least inner) rule nullable = check_groups inner rule nullable
  check_groups (term literal case_sensitive sp) rule nullable = ok tt
  check_groups (regex pattern flags sp) rule nullable = ok tt
  check_groups (ref name sp) rule nullable = ok tt
  check_groups token rule nullable = ok tt
  check_groups prose rule nullable = ok tt

  pub check_sequence : Sequence → Text → List Text → Result (Unit {0})
  check_sequence nil rule nullable = ok tt
  check_sequence (cons el els) rule nullable = do
    check_groups el rule nullable
    check_sequence els rule nullable

  pub check_alts : Alts → Text → List Text → Result (Unit {0})
  check_alts no_alts rule nullable = ok tt
  check_alts (alt a alts) rule nullable = do
    check_sequence a rule nullable
    check_alts alts rule nullable

unfoldable pub check_rules : List Text → List Production → Result (Unit {0})
unfolding check_groups count_nullable complain_if_many
check_rules nullable [] = ok tt
check_rules nullable (p ∷ prods) = do
  complain_if_many (ambiguous_rule p.name) (count_nullable p.alts nullable)
  check_alts p.alts p.name nullable
  check_rules nullable prods

unfoldable pub check_nullable_alts : List Production → Result (Unit {0})
unfolding check_rules nullable_rules
check_nullable_alts prods = check_rules (nullable_rules prods) prods
