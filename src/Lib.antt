-- ===== src/Lib.antt =====
-- The EBNF front-end (ts/src/converter.ts and ts/src/ebnf.ts), and the program that checks whether its
-- ports depend on the same repositories (tools/port-deps.cjs); and how texts are embedded in the
-- generated module ts/src/translate.ts (ts/embed-translate.js), and how the counts in the comments of a
-- settings file are found and rewritten (ts/scripts/vale-counts.cjs).
--
-- The program reads EBNF text, in the W3C dialect, into the grammar IR of @tabnas/bnf. It sets up an
-- engine of @tabnas/parser with tokens and a rule table of its own (`getEbnfParser`, `ebnfRules`), the
-- actions of the rules build the IR (`stringTerm`, `hexTerm`, `parseCharClass`) or reject a construct by
-- name (`fail…`), and two checks look at the whole grammar (`checkDuplicates`, `checkNullableAlts`).
-- `ebnf` hands the IR to the compiler `emitGrammarSpec`, and the plugin installs the spec.
--
-- `port-deps` reads the manifests of the TypeScript, Go and Rust ports (`readTs`, `readGo`, `readRs`),
-- names the repositories that each depends on (`idOf`, `fold`), and compares them with each other and
-- with a register of known differences (`compare`); its exit code says whether all is in order.
--
-- Files, and what they model:
--   Base        tests on numbers, lists and texts; a text is the list of its UTF-16 code units
--   Ir          spans, elements, sequences, alternatives, productions: the IR as far as it is used
--   Error       `EbnfParseError` as a value: a reason with the values put into its message, a location
--   Token       tokens, `tokenLoc`, `spanOf`, `spanTo`, the `fail…` helpers, `checkName`, `stringTerm`
--   Hex         `codePoint`, and the number conversions of JavaScript that the source calls
--   CharClass   `hexTerm` and `parseCharClass`; CharClass/Pattern reads regular expression classes
--   Lexer       the patterns of `match.token`, and `isoCommentMatcher`
--   Rules       `ebnfRules` and `seqAlts` as data; Rules/Actions has the guards, actions and hooks
--               (Rules/Trees: the trees that they build)
--   Parser      `getEbnfParser`: the settings, the tokens, the rules installed, the cache
--   Nullable    `elDerivesEmpty` to `nullableRules`; Nullable/Language says what a grammar derives
--   Check       `checkDuplicates` and `checkNullableAlts`
--   Convert     `parseEbnf` and `ebnf`
--   Plugin      the plugin and `toSpec` (ts/src/ebnf.ts)
--   Embed       `tsString` (ts/embed-translate.js); Embed/RoundTrip reads template literals
--   Ports       tools/port-deps.cjs, with the types that its readers share. Ports/Names: `NAMING`, the
--               patterns and `idOf`; Order: `uniq`; Fold: `fold`; Fault: `unreadable`; Strings:
--               `readText`; Json, Npm: `readTs` and its helpers; GoMod: `parseGoMod`; GoIgnored:
--               `goIgnored`; GoImports: `goImports`; GoFiles: `goFiles`; Go: `readGo`; Toml: `parseToml`, with
--               Toml/Strings for `escape` and `string`, Toml/Paths for `key`, Toml/Tables for `assign`
--               and the tables of `header`, Toml/Values for `value`, Toml/Document for the rest of
--               `header` and the statements; Cargo: `readRs`, with Cargo/Spellings for the ways to
--               write a dependency; Compare: `compare`; Run: `readRepo`, `readRegister`, `check` and `main`
--   Vale        `join` and `blocks` (ts/scripts/vale-counts.cjs); Vale/Edits: `edit`;
--               Vale/Claims: `HITS` and the loop of `report` over its matches;
--               Vale/Notes: the lines that `report` inserts
--   Tests       runs on small inputs
--
-- How the model stands to the code. A thrown error is the `err` case of a result. A `Set` of names is
-- the list of its members, and an array of elements or of alternatives is a data type of its own, since
-- elements hold such arrays. The loops of `parseCharClass` are recursions on the text and on the items;
-- the scan carries how many units of the member at hand are still to be passed over, where the source
-- advances its index. The `while` loop of `nullableRules` runs on fuel, one round more than there are
-- rules, since each round but the last adds a rule. Hexadecimal digits are written on fuel above the
-- number. `parseInt` is modelled on texts without sign, space and `0x`, which is all that the
-- source gives it.
--
-- A file that cannot be read is a value with the file, the line and the reason. The loops of `goImports`
-- run on fuel, one round more than the file has units, since each round takes a unit. The loop over a
-- line of go.mod runs on fuel, as many rounds as the line has units, since a round takes a unit unless
-- it stands at white space that the source does not step over. The rest of a header line, in
-- `goIgnored`, is taken apart on fuel above its length, since each round shortens it. A directory is a
-- tree of entries, and the files in it are put in order as the walk goes up.
--
-- The reader of TOML carries what is left of the text and the line. A key and a document run on fuel, one
-- more than there are units, since a part or a statement takes a unit. A value runs on fuel, two for
-- each unit and one more: a call for a value that takes no unit hands on to one that does. A `Map` is a
-- list of keys in the order of their insertion. Where the source changes a table in place, the changed
-- table is put into the document again; the table that it keeps in `current` is known by the keys that
-- lead to it, where a key of an array of tables leads to its last item.
--
-- In the record of prose alerts, `null` among the places is `none`, and an error that JavaScript throws
-- there is `none` in place of the result. A number is written on fuel above it, and read exactly, as
-- JavaScript does below 2 ^ 53.
--
-- Parameters: the engine (its parse, its choice of an alternate, its tokens, the installed grammar) and
-- the compiler of the IR. A choice of an alternate is taken to be the first that fits, as the order of
-- the rejections in the table relies on; a terminal of the IR is taken to match no empty text, as the
-- comment in `elDerivesEmpty` says; and the parser to return only what the actions and hooks of the
-- rule table build (Rules/Trees), whichever rules the engine runs.
--
-- For the port checker: what a file holds and whether it exists, `JSON.parse`, and the letters and digits
-- of Unicode.
--
-- Not modelled: the wording of messages, and the `cause` of errors; the engine's own lexer and the
-- order in which it runs the rule table; `render` and the id of the repository that it prints; the
-- rest of `report` and the measuring of ts/scripts/vale-counts.cjs; ts/scripts/gated-docs.cjs, a
-- constant list of pages; the rest of ts/embed-translate.js; ts/src/translate.ts, a generated file
-- that holds a manifest and the text of alchemy/render.alc; the ports in go/ and rs/.
pub mod Base
pub mod Ir
pub mod Error
pub mod Token
pub mod Hex
pub mod CharClass
pub mod Nullable
pub mod Check
pub mod Lexer
pub mod Rules
pub mod Convert
pub mod Plugin
pub mod Parser
pub mod Embed
pub mod Ports
pub mod Vale
mod Tests
