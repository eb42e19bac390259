-- ===== src/Ports/GoMod/Total.antt =====
-- Reading a go.mod file (tools/port-deps.cjs: `parseGoMod`), line by line.
use ebnf.Base.{
  ℕ, suc, ◌≡◌, ◌≢◌, subst, false, Option, none, some, List, [], ◌∷◌, All, length, any, Text, arith,
  text_eq, codes,
}
use ebnf.Ports.Fault.{Read, Unreadable, read, unreadable, out_of_fuel}
use ebnf.Ports.Strings.{split_lines}
use ebnf.Ports.Reads.{Reads, Reads->>=, Reads-if}
use ebnf.Ports.GoMod.{
  Scanned, scanned, stuck, GoMod, module_line, require_line, directive, is_one, opens, mod_line,
  scanned_line, mod_lines, scan_tokens, finish, parse_go_mod,
}
use ebnf.Ports.GoMod.Scan.{is_odd, scan_tokens-total}

-- Something is read, or it cannot be, and no fuel has run out.
abbrev Settled {ℓ} : {A : Type ℓ} → Read A → Type 0
Settled r = Reads (λ _. Unit {0}) r

module _ (file : Text) (at : ℕ) (st : GoMod) where
  module_line-Settled :
      (args : List Text) (o : Option Text) → Settled (module_line file at args st o)
  unfolding module_line
  module_line-Settled [] o = λ e. absurd cc
  module_line-Settled (path ∷ []) none = tt
  module_line-Settled (path ∷ []) (some _) = λ e. absurd cc
  module_line-Settled (path ∷ more ∷ args) o = λ e. absurd cc

  require_line-Settled :
      (args : List Text) (text : Text) → Settled (require_line file at args text st)
  unfolding require_line
  require_line-Settled [] text = λ e. absurd cc
  require_line-Settled (path ∷ []) text = λ e. absurd cc
  require_line-Settled (path ∷ version ∷ []) text = tt
  require_line-Settled (path ∷ version ∷ more ∷ args) text = λ e. absurd cc

  directive-Settled :
      (verb : Text) (args : List Text) (text : Text) → Settled (directive file at verb args text st)
  unfolding directive
  directive-Settled verb args text =
      Reads-if _ (text_eq verb (codes "module")) _ _ (λ _. module_line-Settled args st.module_path)
        (λ _.
          Reads-if _ (text_eq verb (codes "require")) _ _ (λ _. require_line-Settled args text)
            (λ _. tt))

  mod_line-Settled :
      (t : Text) (ts : List Text) (text : Text) (o : Option Text)
      → Settled (mod_line file at t ts text st o)
  unfolding mod_line
  mod_line-Settled t ts text none =
      Reads-if _ (opens ts) _ _ (λ _. Reads-if _ (is_one ts) _ _ (λ _. tt) (λ _ e. absurd cc))
        (λ _. directive-Settled t ts text)
  mod_line-Settled t ts text (some verb) =
      Reads-if _ (text_eq t (codes ")")) _ _
        (λ _. Reads-if _ (is_one (t ∷ ts)) _ _ (λ _. tt) (λ _ e. absurd cc))
        (λ _. directive-Settled verb (t ∷ ts) text)

  scanned_line-Settled : (x : Scanned) → x ≢ stuck out_of_fuel → Settled (scanned_line file at st x)
  unfolding scanned_line
  scanned_line-Settled (stuck why) h = λ e. h cc
  scanned_line-Settled (scanned line) h =
      elim line.tokens
        as (λ l.
          Settled
            (elim l [ [] ↦ read st | t ∷ ts ↦ mod_line file at t ts line.note st st.block ])) [
              | [] ↦ tt
              | t ∷ ts ↦ mod_line-Settled t ts line.note st.block
            ]

abbrev pub PlainLines : List Text → Type 0
PlainLines lines = All (λ line. any is_odd line ≡ false) lines

mod_lines-Settled :
    (file : Text) (at : ℕ) (lines : List Text) (st : GoMod)
    → PlainLines lines
    → Settled (mod_lines file at lines st)
unfolding mod_lines
mod_lines-Settled file at [] st h = tt
mod_lines-Settled file at (src ∷ lines) st h =
    Reads->>= (λ _. Unit {0}) _ (scanned_line file at st (scan_tokens (length src) src)) _
      (scanned_line-Settled file at st _ (scan_tokens-total (length src) src (omega arith) h.0))
      (λ st' _. mod_lines-Settled file (suc at) lines st' h.1)

finish-Settled :
    (file : Text) (st : GoMod) (block path : Option Text) → Settled (finish file st block path)
unfolding finish
finish-Settled file st (some verb) path = λ e. absurd cc
finish-Settled file st none none = λ e. absurd cc
finish-Settled file st none (some path) = tt

-- Where no line has white space but spaces, tabs and carriage returns, reading a go.mod file ends,
-- whatever else the lines hold: the fuel of no line runs out.
pub parse_go_mod-total :
    (file text : Text) (u : Unreadable)
    → PlainLines (split_lines text)
    → parse_go_mod file text ≡ unreadable u
    → u.why ≢ out_of_fuel
unfolding parse_go_mod
parse_go_mod-total file text u plain e = subst Settled e (
    Reads->>= (λ _. Unit {0}) _ (mod_lines file 1 (split_lines text) _) _
      (mod_lines-Settled file 1 (split_lines text) _ plain)
      (λ st _. finish-Settled file st st.block st.module_path))
