-- ===== src/Ports/Fault.antt =====
-- What a reader throws (tools/port-deps.cjs: `unreadable`): the file, the line, and what the message
-- says.
use ebnf.Base.{ℕ, Text}

-- What cannot be read. The last two are of the model alone: a current table that is not in its document,
-- and a fuel that has run out.
pub data Fault : Type 0 where
  not_json : Text → Fault
  not_object : Fault
  no_name : Fault
  not_dependencies : Text → Fault
  not_version : Text → Text → Fault
  not_peer_meta : Fault
  not_optional_flag : Text → Fault
  no_package_table not_table inherited package_not_string optional_not_boolean : Fault
  not_version_nor_table old_spelling : Fault
  open_comment open_string open_raw_string escaped_path : Fault
  no_package_clause no_package_name not_import open_group : Fault
  open_quote escaped_string text_after_close text_after_open bad_module second_module : Fault
  bad_require open_block no_module second_build_line : Fault
  foreign_org_import : Text → Fault
  no_such_file not_readable : Fault
  after_statement malformed_escape escape_beyond_unicode unknown_escape : Fault
  open_block_string open_line_string block_string_as_key no_key : Fault
  cannot_hold set_twice open_array no_comma open_inline_table no_equals no_value : Fault
  open_header already_value array_defined table_defined : Fault
  lost_table out_of_fuel : Fault

pub record Unreadable : Type 0 where
  pub file : Text
  pub line : ℕ
  pub why : Fault

pub data Read {ℓ} (A : Type ℓ) : Type ℓ where
  read : A → Read A
  unreadable : Unreadable → Read A

module _ {ℓ κ} {A : Type ℓ} {B : Type κ} where
  -- A reader that has thrown reads nothing more.
  infixl 1 ◌>>=◌
  abbrev pub ◌>>=◌ : Read A → (A → Read B) → Read B
  unreadable u >>= next = unreadable u
  read a >>= next = next a

infixl 1 ◌>>◌
abbrev pub ◌>>◌ {κ} : {B : Type κ} → Read (Unit {0}) → Read B → Read B
first >> second = first >>= λ _. second

abbrev pub fail {ℓ} : {A : Type ℓ} → Text → ℕ → Fault → Read A
fail file line why = unreadable (record { file = file; line = line; why = why })
