-- ===== src/Tests/Vale.antt =====
-- Runs of the reader and the editor of the record of prose alerts.
use ebnf.Base.{false, ◌≡◌, refl, none, some, [], ◌∷◌, Text, codes}
use ebnf.Ports.Strings.{split_lines}
use ebnf.Vale.{Block, blocks, rule_of}
use ebnf.Vale.Words.{LandsIn, words_land}
use ebnf.Vale.Edits.{edit}
use ebnf.Vale.Notes.{notes, with_notes}
use ebnf.Vale.Claims.{hits_from, hit_edits}
use ebnf.Vale.Edits.Pieces.{edit-pieces}

rule_runs :
    (rule_of (codes "Vale.Spelling = NO ") ≡ some (codes "Vale.Spelling", codes "NO"))
    × (rule_of (codes "[*.md]") ≡ none)
    × (rule_of (codes "a = b c") ≡ none)
unfolding rule_of
rule_runs = (refl, refl, refl)

abbrev settings : Text
settings = codes "# size 61\n#\thits.\nGoogle.We = NO\n\n# rest"

abbrev first_block : Block
first_block = record {
  rule = some (codes "Google.We", codes "NO");
  joined = record {
    text = codes "size 61 hits.";
    at =
        some (0, 2)
        ∷ some (0, 3)
        ∷ some (0, 4)
        ∷ some (0, 5)
        ∷ some (0, 6)
        ∷ some (0, 7)
        ∷ some (0, 8)
        ∷ none
        ∷ some (1, 2)
        ∷ some (1, 3)
        ∷ some (1, 4)
        ∷ some (1, 5)
        ∷ some (1, 6)
        ∷ [];
  };
  assigned = some 2;
}

block_runs :
    blocks settings
    ≡ first_block
      ∷ record {
        rule = none;
        joined = record {
          text = codes "rest";
          at = some (4, 2) ∷ some (4, 3) ∷ some (4, 4) ∷ some (4, 5) ∷ [];
        };
        assigned = none;
      }
      ∷ []
unfolding blocks
block_runs = refl

words_land_example : LandsIn (split_lines settings) first_block.joined.at 5 (codes "61")
unfolding blocks
words_land_example =
    words_land settings 0 first_block (codes "size ") (codes "61") (codes " hits.") refl refl
      ((λ e. cc e), refl)

edit-pieces_example :
    edit (codes "# 9 hits, 12 files" ∷ codes "x" ∷ []) (
      record { line = 0; col = 2; was = codes "9"; text = codes "10" }
      ∷ record { line = 0; col = 10; was = codes "12"; text = codes "3" }
      ∷ [])
    ≡ some (codes "# 10 hits, 3 files" ∷ codes "x" ∷ [])
edit-pieces_example =
    edit-pieces [] (codes "x" ∷ []) (codes " files")
      (record { stays = codes "# "; was = codes "9"; text = codes "10" }
        ∷ record { stays = codes " hits, "; was = codes "12"; text = codes "3" }
        ∷ [])
      ((λ e. cc e), ((λ e. cc e), tt))

hit_runs :
    (hits_from 0 false 0 (codes "61 hits, 5 hit. a7 hits 8  hitsx 9 h")
      ≡ record { index = 0; digits = codes "61" } ∷ record { index = 9; digits = codes "5" } ∷ [])
    × (hit_edits (λ _. 104) first_block
        ≡ some (record { line = 0; col = 7; was = codes "61"; text = codes "104" } ∷ []))
    × (hit_edits (λ _. 61) first_block ≡ some [])
unfolding hits_from hit_edits
hit_runs = (refl, refl, refl)

abbrev uncounted : Text
uncounted = codes "# why\nA.B = warning\n# 2 hits.\nA.C = NO\nA.D = NO"

note_runs :
    (notes (λ _. 1) (blocks uncounted)
      ≡ record { at = 1; text = codes "# 1 hit." }
        ∷ record { at = 4; text = codes "# 1 hit." }
        ∷ [])
    × (with_notes (notes (λ _. 12) (blocks uncounted)) (split_lines uncounted)
        ≡ split_lines
            (codes "# why\n# 12 hits.\nA.B = warning\n# 2 hits.\nA.C = NO\n# 12 hits.\nA.D = NO"))
unfolding notes blocks with_notes
note_runs = (refl, refl)

abbrev uncounted_block : Block
uncounted_block = record {
  rule = some (codes "A.B", codes "warning");
  joined = record { text = codes "why"; at = some (0, 2) ∷ some (0, 3) ∷ some (0, 4) ∷ [] };
  assigned = some 1;
}
