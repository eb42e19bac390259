-- ===== src/Ports/Run.antt =====
-- The program (tools/port-deps.cjs: `readRepo`, `readRegister`, `check`, `main`), for a repository that
-- is a parameter, as are the library functions that the readers call.
pub mod Arguments
pub mod Readings
pub mod Laws
use ebnf.Base.{
  ℕ, Bool, true, false, not, ◌||◌, Option, none, some, List, [], ◌∷◌, if◌then◌else◌, length, map,
  filter, starts_with, Text, codes, text_eq,
}
use ebnf.Ports.{PortName, ts, go, rs, Port}
use ebnf.Ports.Fault.{
  Fault, Unreadable, Read, read, unreadable, ◌>>=◌, fail, not_json, no_such_file,
}
use ebnf.Ports.Order.{uniq}
use ebnf.Ports.Strings.{read_text}
use ebnf.Ports.Json.{Json, object, Members, nothing, member}
use ebnf.Ports.Compare.{Repo, Problem, Compared, compare, repo_of, ids_in, ports_of, port_of}
use ebnf.Ports.GoFiles.{Entries}
use ebnf.Ports.Go.{read_go}
use ebnf.Ports.Npm.{JsonParse, parsed, broken, json_line, read_ts}
use ebnf.Ports.Cargo.{read_rs}

-- What the program finds outside of its own text: a directory with its files, and the functions of the
-- language.
pub record Outside : Type 0 where
  pub exists : Text → Bool
  pub contents : Text → Read Text
  pub go_entries : Entries
  pub letter : ℕ → Bool
  pub decimal : ℕ → Bool
  pub parse_json : Text → JsonParse

unfoldable pub manifest_of : PortName → Text
manifest_of ts = codes "ts/package.json"
manifest_of go = codes "go/go.mod"
manifest_of rs = codes "rs/Cargo.toml"

unfoldable pub register_path : Text
register_path = codes "tools/port-deps.json"

-- `READERS[port](dir)`, and a port that is not there is `null`.
unfoldable pub reader : Outside → PortName → Read Port
unfolding read_ts read_go read_rs
reader o ts = read_ts o.parse_json o.contents
reader o go = read_go o.letter o.decimal o.contents o.exists o.go_entries
reader o rs = read_rs o.contents

unfoldable pub read_port : Outside → PortName → Read (Option Port)
unfolding manifest_of reader
read_port o p =
    let there = (do port ← reader o p; read (some port)) in
    if o.exists (manifest_of p) then there else read none

unfoldable pub read_repo : Outside → Read Repo
unfolding read_port
read_repo o = do
  a ← read_port o ts
  b ← read_port o go
  c ← read_port o rs
  read (record { ts_port = a; go_port = b; rs_port = c })

-- The register, and an empty one where there is none.
unfoldable pub parsed_register : Text → JsonParse → Read Json
unfolding json_line register_path
parsed_register text (parsed json) = read json
parsed_register text (broken message) =
    fail register_path (json_line text message) (not_json message)

unfoldable pub is_missing : Fault → Bool
is_missing no_such_file = true
is_missing _ = false

unfoldable pub register_from : (Text → JsonParse) → Read Text → Read Json
unfolding read_text parsed_register is_missing
register_from parse (read text) = parsed_register (read_text text) (parse (read_text text))
register_from parse (unreadable u) =
    if is_missing u.why
    then read (object (member (codes "differ") (object nothing) nothing))
    else unreadable u

unfoldable pub read_register : Outside → Read Json
unfolding register_from register_path
read_register o = register_from o.parse_json (o.contents register_path)

unfoldable pub check : Outside → Read Compared
unfolding read_repo read_register compare
check o = do repo ← read_repo o; register ← read_register o; read (compare repo register)

-- What the arguments ask for.
pub data Asked : Type 0 where
  help : Asked
  unexpected : Text → Asked
  compare_in : Bool → Option Text → Asked

unfoldable pub is_some : Option Text → Bool
is_some none = false
is_some (some _) = true

unfoldable pub ask : Bool → Option Text → List Text → Asked
unfolding text_eq is_some
ask json dir [] = compare_in json dir
ask json dir (arg ∷ args) =
    let with_json = ask true dir args in
    let with_dir = ask json (some arg) args in
    if text_eq arg (codes "-h") || text_eq arg (codes "--help")
    then help
    else if text_eq arg (codes "--json")
    then with_json
    else if starts_with b'-' arg || is_some dir
    then unexpected arg
    else with_dir

-- What the program writes, and where.
pub data Written : Type 0 where
  usage : Written
  unexpected_argument : Text → Written
  no_directory : Text → Written
  cannot_read : Unreadable → Written
  result : Bool → Compared → Written

pub record Exit : Type 0 where
  pub code : ℕ
  pub written : Written

unfoldable pub is_ok : List Problem → Bool
is_ok [] = true
is_ok (_ ∷ _) = false

unfoldable pub exit_of : Bool → Read Compared → Exit
unfolding is_ok
exit_of json (unreadable u) = record { code = 2; written = cannot_read u }
exit_of json (read out) = record {
  code = if is_ok out.problems then 0 else 1;
  written = result json out;
}

unfoldable pub directory_of : Text → Option Text → Text
directory_of here none = here
directory_of here (some dir) = dir

-- `main`, for the directory above the program's own, a test of what is a directory, and what each
-- directory holds.
module _ (here : Text) (is_directory : Text → Bool) (outside : Text → Outside) where
  unfoldable pub perform : Asked → Exit
  unfolding directory_of exit_of check
  perform help = record { code = 0; written = usage }
  perform (unexpected arg) = record { code = 2; written = unexpected_argument arg }
  perform (compare_in json dir) =
      let root = directory_of here dir in
      let checked = exit_of json (check (outside root)) in
      if is_directory root then checked else record { code = 2; written = no_directory root }

  unfoldable pub main : List Text → Exit
  unfolding ask perform
  main argv = perform (ask false none argv)
