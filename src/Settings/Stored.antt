-- ===== src/Settings/Stored.antt =====
-- The settings service of cpkit/settings as an abstract table from keys to values.
use cpkit.Base.{
  String, true, Option, none, some, List, [], ◌∷◌, ◌≡◌, refl, ap, ◌∙◌, arith, str_eq, eq_iff,
  first_row, first_row_passes, map_option, first_row-update_rows, if◌then◌else◌,
}
use cpkit.Base.Exec.{Result, ok, err, raise, continue, handled, ◌>>=◌}
use cpkit.Errors.{DatabaseError, Messages}
use cpkit.Settings.{
  Setting, SettingsFailure, Query, Env, SettingsCall, get, update, reset, has_key, with_value,
  stated, write_value, coalesce, raised, shown_option,
}
use cpkit.Settings
use cpkit.Settings.Service
use cpkit.Settings.Service.{
  guarded, translated, update_messages, reset_messages, run_updated_hook, run_reset_hook,
  missing_setting, value_or_missing,
}

-- a key's own value, if it has one, and its default
abbrev pub Cell : Type 0
Cell = Option String × String

abbrev pub Table : Type 0
Table = String → Option Cell

abbrev cell : Option Setting → Option Cell
cell none = none
cell (some s) = some (s.value, s.default_value)

-- the table that the rows are
abbrev pub view : List Setting → Table
view ss key = cell (first_row (has_key key) ss)

abbrev set_cell : Option String → Option Cell → Option Cell
set_cell value none = none
set_cell value (some c) = some (value, c.1)

-- the table with one key's value changed, if the key is there
abbrev pub set_value : String → Option String → Table → Table
set_value key value t other = if str_eq key other then set_cell value (t other) else t other

-- A write of the service, each with what happens while it runs.
pub data Write : Type 0 where
  updating : Env → (setting_id value updated_by : String) → Write
  resetting : Env → (setting_id updated_by : String) → Write

-- the action writes no setting
abbrev LeavesRows : Query (Unit {0}) → Type 0
LeavesRows q = (ss : List Setting) → (q ss).1 ≡ ss

-- no hook that a write calls writes a setting of its own
abbrev pub HooksLeaveRows : List Write → Type 0
HooksLeaveRows [] = Unit
HooksLeaveRows (updating env k v u ∷ ws) =
    LeavesRows (run_updated_hook env env.setting_updated_hook k v u) × HooksLeaveRows ws
HooksLeaveRows (resetting env k u ∷ ws) =
    LeavesRows (run_reset_hook env env.setting_reset_hook k u) × HooksLeaveRows ws

unfoldable pub run_writes : List Write → List Setting → List Setting
run_writes [] ss = ss
run_writes (updating env k v u ∷ ws) ss = run_writes ws (Service.update_setting env k v u ss).1
run_writes (resetting env k u ∷ ws) ss = run_writes ws (Service.reset_setting env k u ss).1

abbrev unless_fault : {A : Type 0} → Option A → Table → Table → Table
unless_fault none t changed = changed
unless_fault (some e) t changed = t

abbrev pub spec_write : Write → Table → Table
spec_write (updating env k v u) t = unless_fault (env.fault update) t (set_value k (some v) t)
spec_write (resetting env k u) t = unless_fault (env.fault reset) t (set_value k none t)

unfoldable pub spec_writes : List Write → Table → Table
spec_writes [] t = t
spec_writes (w ∷ ws) t = spec_writes ws (spec_write w t)

same_key : (k j : String) (s : Setting) → has_key j s ≡ true → has_key k s ≡ str_eq k j
same_key k j s h = ground (arith, h, eq_iff s.key j, eq_iff s.key k, eq_iff k j)

view-write_value :
    (env : Env) (k : String) (v : Option String) (u : String) (ss : List Setting) (j : String)
    → view (write_value env k v u ss).1 j ≡ set_value k v (view ss) j
unfolding write_value
view-write_value env k v u ss j =
    ap cell (
      first_row-update_rows (has_key j) (has_key k) (with_value env.now v u) (λ s. ground arith) ss)
    ∙ found (first_row (has_key j) ss) λ s e. first_row_passes (has_key j) ss e
  where
    found :
        (o : Option Setting)
        → ((s : Setting) → o ≡ some s → has_key j s ≡ true)
        → cell (map_option (λ a. if has_key k a then with_value env.now v u a else a) o)
          ≡ (if str_eq k j then set_cell v (cell o) else cell o)
    found none h = ground arith
    found (some s) h = ground (arith, same_key k j s (h s refl))

-- translating a failure changes no row
guarded-rows :
    {A : Type 0} (m : Messages) (q : Query A) (ss : List Setting) → (guarded m q ss).1 ≡ (q ss).1
unfolding guarded ◌>>=◌
guarded-rows {A = A} m q ss = rows (q ss).0 (q ss).1
  where
    rows :
        (r : Result SettingsFailure A) (s : List Setting)
        → (handled r (λ f. raise (translated m f)) s).1 ≡ s
    rows (ok a) s = refl
    rows (err e) s = refl

hook-rows :
    {A : Type 0} (q : Query A) (hook : Query (Unit {0})) (ss : List Setting)
    → LeavesRows hook
    → ((q >>= λ row. hook) ss).1 ≡ (q ss).1
unfolding ◌>>=◌
hook-rows {A = A} q hook ss leaves = rows (q ss).0 (q ss).1
  where
    rows : (r : Result SettingsFailure A) (s : List Setting) → (continue r (λ row. hook) s).1 ≡ s
    rows (ok a) s = leaves s
    rows (err e) s = refl

stated-rows :
    (env : Env) (statement : SettingsCall) (k : String) (v : Option String) (u : String)
    (ss : List Setting) (j : String)
    → view (stated env statement (write_value env k v u) ss).1 j
      ≡ unless_fault (env.fault statement) (view ss) (set_value k v (view ss)) j
unfolding stated ◌>>=◌
stated-rows env statement k v u ss j = cases (env.fault statement) refl
  where
    cases :
        (o : Option DatabaseError)
        → env.fault statement ≡ o
        → view (continue (raised o) (λ _. write_value env k v u) ss).1 j
          ≡ unless_fault o (view ss) (set_value k v (view ss)) j
    cases none e = view-write_value env k v u ss j
    cases (some x) e = refl

spec_write-cong :
    (w : Write) (t t' : Table)
    → ((j : String) → t j ≡ t' j)
    → (j : String) → spec_write w t j ≡ spec_write w t' j
spec_write-cong (updating env k v u) t t' e j = cong (env.fault update)
  where
    cong :
        (o : Option DatabaseError)
        → unless_fault o t (set_value k (some v) t) j
          ≡ unless_fault o t' (set_value k (some v) t') j
    cong none = ap (λ c. if str_eq k j then set_cell (some v) c else c) (e j)
    cong (some x) = e j
spec_write-cong (resetting env k u) t t' e j = cong (env.fault reset)
  where
    cong :
        (o : Option DatabaseError)
        → unless_fault o t (set_value k none t) j ≡ unless_fault o t' (set_value k none t') j
    cong none = ap (λ c. if str_eq k j then set_cell none c else c) (e j)
    cong (some x) = e j

spec_writes-cong :
    (ws : List Write) (t t' : Table)
    → ((j : String) → t j ≡ t' j)
    → (j : String) → spec_writes ws t j ≡ spec_writes ws t' j
unfolding spec_writes
spec_writes-cong [] t t' e j = e j
spec_writes-cong (w ∷ ws) t t' e j =
    spec_writes-cong ws (spec_write w t) (spec_write w t') (spec_write-cong w t t' e) j

-- The rows stay an image of the abstract table.
run_writes-view :
    (ws : List Write) (ss : List Setting) (j : String)
    → HooksLeaveRows ws
    → view (run_writes ws ss) j ≡ spec_writes ws (view ss) j
unfolding run_writes spec_writes Service.update_setting Service.reset_setting
    Settings.update_setting Settings.reset_setting
run_writes-view [] ss j leave = refl
run_writes-view (updating env k v u ∷ ws) ss j leave =
    run_writes-view ws (Service.update_setting env k v u ss).1 j leave.1
    ∙ spec_writes-cong ws _ _
        (λ i.
          ap (λ rows. view rows i)
            (guarded-rows (update_messages k) _ ss
              ∙ hook-rows _ (run_updated_hook env env.setting_updated_hook k v u) ss leave.0)
          ∙ stated-rows env update k (some v) u ss i)
        j
run_writes-view (resetting env k u ∷ ws) ss j leave =
    run_writes-view ws (Service.reset_setting env k u ss).1 j leave.1
    ∙ spec_writes-cong ws _ _
        (λ i.
          ap (λ rows. view rows i)
            (guarded-rows (reset_messages k) _ ss
              ∙ hook-rows _ (run_reset_hook env env.setting_reset_hook k u) ss leave.0)
          ∙ stated-rows env reset k none u ss i)
        j

-- what the service reads of a cell
abbrev pub read_result : String → Option Cell → Result SettingsFailure (Option String)
read_result k none = err (missing_setting k)
read_result k (some c) = ok (some (coalesce c.0 c.1))

get_setting-view :
    (env : Env) (ss : List Setting) (k : String)
    → env.fault get ≡ none
    → Service.get_setting env k ss ≡ (read_result k (view ss k), ss)
unfolding Service.get_setting Settings.get_setting stated guarded ◌>>=◌
get_setting-view env ss k e = rw e (read (first_row (has_key k) ss))
  where
    read :
        (o : Option Setting) → value_or_missing k (shown_option o) ss ≡ (read_result k (cell o), ss)
    read none = refl
    read (some s) = refl

-- For any writes of the settings service, whatever statements fail and whether the hooks raise,
-- provided no hook writes a setting through the repository that it is handed: a reading that does not fail gives for a key that the rows have the value that the abstract table
-- holds after the same writes, its own or the default, and a validation error for any other key. In
-- the abstract table a failed statement changes nothing, an update sets the key's value, a reset
-- takes it away, and neither adds a key or touches another one.
pub get_setting-run_writes :
    (env : Env) (ws : List Write) (ss : List Setting) (k : String)
    → HooksLeaveRows ws
    → env.fault get ≡ none
    → (Service.get_setting env k (run_writes ws ss)).0 ≡ read_result k (spec_writes ws (view ss) k)
get_setting-run_writes env ws ss k leave e =
    ap (λ x. x.0) (get_setting-view env (run_writes ws ss) k e)
    ∙ ap (read_result k) (run_writes-view ws ss k leave)
