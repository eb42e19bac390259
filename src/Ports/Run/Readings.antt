-- ===== src/Ports/Run/Readings.antt =====
-- What is read of a directory (tools/port-deps.cjs: `readRepo`, `readRegister`).
use ebnf.Base.{
  ◌≡◌, ◌↔◌, refl, sym, ap, ◌∙◌, subst, Bool, Bool-cases, true, false, inl, inr, ◌⊎◌, Option, none,
  some, Text, codes, if◌then◌else◌,
}
use ebnf.Ports.{Port, ts, go, rs}
use ebnf.Ports.Fault.{Fault, Unreadable, Read, read, unreadable, ◌>>=◌, no_such_file}
use ebnf.Ports.Strings.{read_text}
use ebnf.Ports.Json.{Json, object, nothing, member}
use ebnf.Ports.Npm.{parsed, broken, read_ts}
use ebnf.Ports.Go.{read_go}
use ebnf.Ports.Cargo.{read_rs}
use ebnf.Ports.Compare.{Repo}
use ebnf.Ports.Run.{
  Outside, manifest_of, reader, read_port, read_repo, parsed_register, register_path, is_missing,
  register_from, read_register,
}

-- A port whose manifest is not there is none; and of one that is there its reader reads the port.
abbrev pub IsRead : Bool → Read Port → Option Port → Type 0
IsRead there r none = there ≡ false
IsRead there r (some port) = (there ≡ true) × (r ≡ read port)

abbrev pub IsRepo : Outside → Repo → Type 0
IsRepo o repo =
    IsRead (o.exists (codes "ts/package.json")) (read_ts o.parse_json o.contents) repo.ts_port
    × IsRead (o.exists (codes "go/go.mod"))
        (read_go o.letter o.decimal o.contents o.exists o.go_entries) repo.go_port
    × IsRead (o.exists (codes "rs/Cargo.toml")) (read_rs o.contents) repo.rs_port

-- The register is what its file says, and has no entry where there is no such file.
abbrev pub IsRegister : Outside → Json → Type 0
IsRegister o register =
    ((text : Text) × (o.contents (codes "tools/port-deps.json") ≡ read text)
      × (o.parse_json (read_text text) ≡ parsed register))
    ⊎ ((u : Unreadable) × (o.contents (codes "tools/port-deps.json") ≡ unreadable u)
        × (u.why ≡ no_such_file)
        × (register ≡ object (member (codes "differ") (object nothing) nothing)))

pub read-inj {ℓ} : {A : Type ℓ} {a b : A} → read a ≡ read b → a ≡ b
read-inj {A = A} {a = a} e = ap (λ (r : Read A). elim r [ read x ↦ x | unreadable _ ↦ a ]) e

-- What a reader in two steps has read.
pub >>=-eq-read {ℓ κ} :
    {A : Type ℓ} {B : Type κ} (r : Read A) (f : A → Read B) (b : B)
    → (r >>= f) ≡ read b
    → (a : A) × (r ≡ read a) × (f a ≡ read b)
>>=-eq-read (read a) f b e = (a, refl, e)
>>=-eq-read (unreadable u) f b e = absurd cc

if_there_iff :
    (there : Bool) (r : Read Port) (x : Option Port)
    → ((if there then (r >>= λ port. read (some port)) else read none) ≡ read x) ↔ IsRead there r x
if_there_iff false r none = (λ _. refl, λ _. refl)
if_there_iff false r (some port) = (λ e. absurd (cc (read-inj e)), λ h. absurd cc)
if_there_iff true (read p) none = (λ e. absurd (cc (read-inj e)), λ h. absurd cc)
if_there_iff true (read p) (some port) = (λ e. (refl, cc (read-inj e)), λ h. cc (read-inj h.1))
if_there_iff true (unreadable u) none = (λ e. absurd cc, λ h. absurd cc)
if_there_iff true (unreadable u) (some port) = (λ e. absurd cc, λ h. absurd cc)

module _ (o : Outside) where
  ts_iff :
      (x : Option Port)
      → (read_port o ts ≡ read x)
        ↔ IsRead (o.exists (codes "ts/package.json")) (read_ts o.parse_json o.contents) x
  unfolding read_port manifest_of reader
  ts_iff x = if_there_iff (o.exists (codes "ts/package.json")) (read_ts o.parse_json o.contents) x

  go_iff :
      (x : Option Port)
      → (read_port o go ≡ read x)
        ↔ IsRead
            (o.exists (codes "go/go.mod"))
            (read_go o.letter o.decimal o.contents o.exists o.go_entries)
            x
  unfolding read_port manifest_of reader
  go_iff x =
      if_there_iff (o.exists (codes "go/go.mod"))
        (read_go o.letter o.decimal o.contents o.exists o.go_entries) x

  rs_iff :
      (x : Option Port)
      → (read_port o rs ≡ read x) ↔ IsRead (o.exists (codes "rs/Cargo.toml")) (read_rs o.contents) x
  unfolding read_port manifest_of reader
  rs_iff x = if_there_iff (o.exists (codes "rs/Cargo.toml")) (read_rs o.contents) x

  pub read_repo_iff : (repo : Repo) → (read_repo o ≡ read repo) ↔ IsRepo o repo
  unfolding read_repo
  read_repo_iff repo = (
    λ e.
        let (a, ra, e1) = >>=-eq-read (read_port o ts) _ repo e in
        let (b, rb, e2) = >>=-eq-read (read_port o go) _ repo e1 in
        let (c, rc, e3) = >>=-eq-read (read_port o rs) _ repo e2 in
        subst (IsRepo o) (read-inj e3) ((ts_iff a).0 ra, (go_iff b).0 rb, (rs_iff c).0 rc),
    λ h.
        rw ((ts_iff repo.ts_port).1 h.0)
          (rw ((go_iff repo.go_port).1 h.1) (rw ((rs_iff repo.rs_port).1 h.2) refl)),
  )

missing_is : (why : Fault) → is_missing why ≡ true → why ≡ no_such_file
unfolding is_missing
missing_is no_such_file e = refl
missing_is _ e = absurd cc

register_from-read :
    (o : Outside) (contents : Read Text) (register : Json)
    → o.contents (codes "tools/port-deps.json") ≡ contents
    → register_from o.parse_json contents ≡ read register
    → IsRegister o register
unfolding register_from parsed_register
register_from-read o (read text) register e is =
    elim (o.parse_json (read_text text))
        as (λ j.
          (o.parse_json (read_text text) ≡ j)
          → (parsed_register (read_text text) j ≡ read register)
          → IsRegister o register) [
            | parsed json ↦ λ p q. inl (text, e, p ∙ ap parsed (read-inj q))
            | broken message ↦ λ p q. absurd cc
          ]
      refl is
register_from-read o (unreadable u) register e is = elim (Bool-cases (is_missing u.why)) [
  | inl missing ↦ inr (u, e, missing_is u.why missing, sym (read-inj (rw missing at is)))
  | inr other ↦ absurd (cc (rw other at is))
]

pub read_register_iff :
    (o : Outside) (register : Json) → (read_register o ≡ read register) ↔ IsRegister o register
unfolding read_register register_from parsed_register is_missing register_path
read_register_iff o register = (
  λ e. register_from-read o (o.contents (codes "tools/port-deps.json")) register refl e,
  λ h. elim h [
    | inl (text, there, is) ↦ rw there (rw is refl)
    | inr (u, gone, why, empty) ↦ rw gone (rw why (ap read (sym empty)))
  ],
)
