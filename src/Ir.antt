-- ===== src/Ir.antt =====
-- The notation-neutral grammar IR of @tabnas/bnf, as far as ts/src/converter.ts builds and reads
-- it: spans, elements, sequences, alternatives and productions.
use ebnf.Base.{ℕ, Bool, List, Option, Text}

pub record SrcSpan : Type 0 where
  pub s : ℕ
  pub e : ℕ
  pub r : Option ℕ
  pub c : Option ℕ

-- The postfix operators, by the element kind each one makes.
pub data PostOp : Type 0 where
  opt star plus : PostOp

-- `Sequence` is an array of elements and `Alts` an array of sequences.
mutual
  pub data Element : Type 0 where
    term : Text → Bool → Option SrcSpan → Element
    regex : Text → Text → Option SrcSpan → Element
    ref : Text → Option SrcSpan → Element
    group : Alts → Option SrcSpan → Element
    opt : Element → Element
    star : Element → Element
    plus : Element → Element
    rep : ℕ → Element → Element
    token : Element
    prose : Element

  pub data Sequence : Type 0 where
    nil : Sequence
    cons : Element → Sequence → Sequence

  pub data Alts : Type 0 where
    no_alts : Alts
    alt : Sequence → Alts → Alts

pub record Production : Type 0 where
  pub name : Text
  pub alts : Alts
  pub sp : Option SrcSpan

pub record Grammar : Type 0 where
  pub productions : List Production
