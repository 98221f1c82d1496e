-- ===== src/Playbooks/Examples.antt =====
-- Formats that count seconds, and a table, for the theorems on cpkit/playbooks.
use Prim.Native.String.compare
use package.text.Mathlib.Text.{is_lt}
use cpkit.Playbooks.{run_call}
use cpkit.Base.Exec.{gets}
use cpkit.Base.{
  any, str_eq, eq_iff, ℕ, zero, suc, ◌-◌, ◌*◌, ◌/◌, ◌≤◌, String, ◌≡◌, ◌≢◌, refl, ap, ◌∙◌, false,
  Option, none, some, List, [], ◌∷◌, inl, arith, ltb, All, delete_rows,
}
use cpkit.Base.Exec.{ok, err}
use cpkit.Base.Texts.{is_before}
use cpkit.Playbooks.{Playbook, Env, is_version, get_default_playbook}
use cpkit.Playbooks.Service.{
  PlaybookVersionResponse, cannot_delete_default, delete_playbook_version, save_playbook,
  get_playbook_version,
}
use cpkit.Playbooks.Missing.{missing_playbook}
use cpkit.Playbooks.{attribute_of_none, is_named}
use cpkit.Playbooks.Formats.{Formats}
use cpkit.Playbooks.Ordered.{In}
use cpkit.Playbooks.Selected.{named, selected_version}
use cpkit.Playbooks.Default.{default_versions_agree}
use cpkit.Playbooks.Undecided.{undecided_default}
use cpkit.Playbooks.Protected.{DefaultIs, default_row_protected}
use cpkit.Playbooks.Bypassed.{other_spelling_deletes}
use cpkit.Playbooks.Saved.{saved_rows, save-get_playbook_version}

-- one stroke for each second
abbrev strokes : ℕ → String
strokes zero = ""
strokes (suc n) = String.◌∷◌ "x" (strokes n)

abbrev count_strokes : String → ℕ
count_strokes String.[] = 0
count_strokes (String.◌∷◌ c s) = suc (count_strokes s)

strokes_before : (m n : ℕ) → is_before (strokes m) (strokes n) ≡ ltb m n
strokes_before zero zero = refl
strokes_before zero (suc n) = ap is_lt (compare.nil-cons "x" (strokes n)) ∙ ground arith
strokes_before (suc m) zero = ap is_lt (compare.cons-nil "x" (strokes m)) ∙ ground arith
strokes_before (suc m) (suc n) =
    ap is_lt (compare.cons-cons "x" "x" (strokes m) (strokes n)) ∙ strokes_before m n ∙ ground arith

count_strokes-strokes : (n : ℕ) → count_strokes (strokes n) ≡ n
count_strokes-strokes zero = refl
count_strokes-strokes (suc n) = ap suc (count_strokes-strokes n)

abbrev env : Env
env = record {
  now = 9000000;
  strftime = λ t. strokes (suc (t / 1000000));
  parse_time = λ s. some ((count_strokes s - 1) * 1000000);
  compress = λ s. s;
  decompress = λ s. some s;
  fault = λ c. none;
  hook = none;
}

env-Formats : Formats env
env-Formats = record {
  starts = λ t. ap is_lt (compare.nil-cons "x" (strokes (t / 1000000)));
  ordered = λ s t. strokes_before (suc (s / 1000000)) (suc (t / 1000000)) ∙ ground arith;
  shows_seconds = λ s t e. ap (λ n. strokes (suc n)) e;
  read_back =
      λ t. ap (λ n. some (n * 1000000)) (omega (arith, count_strokes-strokes (t / 1000000)));
}

abbrev row : ℕ → Option ℕ → Playbook
row version default_version = record {
  name = "deploy";
  version = version;
  default_version = default_version;
  created_at = version;
  created_by = some "alice";
  updated_by = none;
  content = some "- hosts: all";
}

abbrev rows : List Playbook
rows = row 2000000 (some 5000000) ∷ row 3000000 none ∷ row 4000000 (some 7000000) ∷ []

default_versions_agree_example :
    (c : Playbook) × (get_default_playbook env "deploy" rows ≡ (ok (some c), rows))
    × (selected_version env "deploy" rows ≡ (ok (env.strftime c.version), rows))
default_versions_agree_example =
    default_versions_agree env env-Formats "deploy" rows refl refl refl
      ((omega arith, (omega arith, tt)), ((omega arith, tt), (tt, tt)))

abbrev fresh : List Playbook
fresh = row 2000000 none ∷ row 3000000 none ∷ []

undecided_default_example :
    (newest oldest : Playbook) × In newest (named "deploy" fresh)
    × In oldest (named "deploy" fresh)
    × All (λ x. x.version ≤ newest.version) (named "deploy" fresh)
    × All (λ x. oldest.version ≤ x.version) (named "deploy" fresh)
    × (get_default_playbook env "deploy" fresh ≡ (ok (some newest), fresh))
    × (selected_version env "deploy" fresh ≡ (ok (env.strftime oldest.version), fresh))
undecided_default_example =
    undecided_default env "deploy" fresh refl refl refl (row 2000000 none) (inl refl)

rows-DefaultIs : DefaultIs env "deploy" (row 4000000 (some 7000000)) rows
unfolding get_default_playbook run_call gets
rows-DefaultIs = refl

default_row_protected_example :
    DefaultIs env "deploy"
      (row 4000000 (some 7000000))
      (delete_playbook_version env "deploy" (env.strftime 3000000) rows).1
    × (env.strftime 3000000 ≡ env.strftime 4000000
        → delete_playbook_version env "deploy" (env.strftime 3000000) rows
          ≡ (err (cannot_delete_default env), rows))
default_row_protected_example =
    default_row_protected env "deploy" (row 4000000 (some 7000000)) env-Formats 3000000 rows
      rows-DefaultIs

not_equal : (s t : String) → str_eq s t ≡ false → s ≢ t
not_equal s t h e = cc (h, (eq_iff s t).1 e)

-- a server that reads another spelling too, as PostgreSQL reads the letter T for the blank
abbrev lenient : Env
lenient = record env { parse_time = λ s. some 4000000 }

lenient-DefaultIs : DefaultIs lenient "deploy" (row 4000000 (some 7000000)) rows
unfolding get_default_playbook run_call gets
lenient-DefaultIs = refl

other_spelling_deletes_example :
    (delete_playbook_version lenient "deploy" "4" rows).1
    ≡ delete_rows (is_version "deploy" 4000000) rows
other_spelling_deletes_example =
    other_spelling_deletes lenient "deploy" (row 4000000 (some 7000000)) "4" rows lenient-DefaultIs
      (λ c. refl) refl (not_equal "4" _ refl)

save-get_playbook_version_example :
    (r : PlaybookVersionResponse) × (save_playbook env "deploy" "- hosts: web" "bob" rows
      ≡ (ok r, saved_rows env "deploy" "- hosts: web" "bob" rows))
    × (r.original_content ≡ "- hosts: web")
    × (get_playbook_version env "deploy" r.playbook_version
          (saved_rows env "deploy" "- hosts: web" "bob" rows)
        ≡ (ok r, saved_rows env "deploy" "- hosts: web" "bob" rows))
save-get_playbook_version_example =
    save-get_playbook_version env env-Formats (λ c. refl) "deploy" "- hosts: web" "bob" rows refl
      (inl refl) refl

missing_playbook_example :
    (any (is_version "deploy" 6000000) rows ≡ false
      → get_playbook_version env "deploy" (env.strftime 6000000) rows
        ≡ (err attribute_of_none, rows))
    × (any (is_named "deploy") rows ≡ false
        → delete_playbook_version env "deploy" (env.strftime 6000000) rows
          ≡ (err attribute_of_none, rows))
missing_playbook_example =
    missing_playbook env "deploy" (env.strftime 6000000) 6000000 rows (λ c. refl) refl
