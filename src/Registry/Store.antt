-- ===== src/Registry/Store.antt =====
-- internal/registry/registry.go: the tables of the index, and the operations that write them. The
-- database is SQLite with foreign keys on; its own failures (disk, locks) are not modelled, so an
-- operation returns only the errors that its statements can give on these tables. NULL in a column
-- that is read through COALESCE(…, '') is the empty text; `indexed_at` and `Score` are left out.
pub mod Laws
pub mod Invariant
pub mod Refinement
use skillex.Prelude.{
  ℕ, zero, suc, ◌+◌, Bool, true, false, Option, none, some, List, [], ◌∷◌, ◌++◌, map, Text, codes,
  text_eq, has_prefix, trim_left, trim_space, split_on, join, ◌==◌, select, any, if◌then◌else◌,
}
use skillex.Registry.Path.{PatternType, classify_scope}
use skillex.Registry.Tables.{Row, rows_of, delete_rows, insert_rows}

-- Skill
pub record Skill : Type 0 where
  pub id : ℕ
  pub path : Text
  pub content : Text
  pub name : Text
  pub description : Text
  pub package_name : Text
  pub package_version : Text
  pub visibility : Text
  pub source_type : Text
  pub topics : List Text
  pub tags : List Text
  pub scopes : List Text

-- A row of the table `skills`.
pub record SkillRow : Type 0 where
  pub id : ℕ
  pub path : Text
  pub content : Text
  pub name : Text
  pub description : Text
  pub package_name : Text
  pub package_version : Text
  pub visibility : Text
  pub source_type : Text

pub record ScopeValue : Type 0 where
  pub scope : Text
  pub path_prefix : Text
  pub pattern_type : PatternType

pub record SearchValue : Type 0 where
  pub name : Text
  pub description : Text
  pub headings : Text
  pub body : Text

pub record TestValue : Type 0 where
  pub name : Text
  pub prompt : Text
  pub extra_skills : Text
  pub criteria : Text

pub record Tables : Type 0 where
  pub skills : List SkillRow
  pub topics : List (Row Text)
  pub tags : List (Row Text)
  pub scopes : List (Row ScopeValue)
  pub search : List (Row SearchValue)
  pub tests : List (Row TestValue)
  -- AUTOINCREMENT: an id that no row has had
  pub next_id : ℕ

abbrev pub empty : Tables
empty = record {
  skills = [];
  topics = [];
  tags = [];
  scopes = [];
  search = [];
  tests = [];
  next_id = 1;
}

-- Clear, without the capability tables.
unfoldable pub clear : Tables → Tables
clear t = record empty { next_id = t.next_id }

-- headingsText
headings_line : Text → Option Text
unfolding has_prefix trim_left trim_space
headings_line line =
    let l = trim_space line in
    if has_prefix l (codes "#") then some (trim_space (trim_left (λ c. c == 0x23) l)) else none

collect_headings : List Text → List Text
unfolding headings_line
collect_headings [] = []
collect_headings (l ∷ ls) =
    let rest = collect_headings ls in elim (headings_line l) [ none ↦ rest | some h ↦ h ∷ rest ]

unfoldable pub headings_text : Text → Text
unfolding collect_headings split_on join
headings_text content = join 0x0a (collect_headings (split_on 0x0a content))

-- SELECT … FROM skills WHERE path = ?
unfoldable pub find_row : Text → List SkillRow → Option SkillRow
find_row path [] = none
find_row path (r ∷ rs) = if text_eq r.path path then some r else find_row path rs

abbrev pub row_of : ℕ → Skill → SkillRow
row_of id s = record {
  id = id;
  path = s.path;
  content = s.content;
  name = s.name;
  description = s.description;
  package_name = s.package_name;
  package_version = s.package_version;
  visibility = s.visibility;
  source_type = s.source_type;
}

-- INSERT INTO skills … ON CONFLICT(path) DO UPDATE
pub upsert_rows : ℕ → Skill → List SkillRow → List SkillRow
upsert_rows next s [] = row_of next s ∷ []
upsert_rows next s (r ∷ rs) =
    if text_eq r.path s.path then row_of r.id s ∷ rs else r ∷ upsert_rows next s rs

-- getSkillIDByPath; `none` is sql.ErrNoRows
unfoldable pub skill_id_by_path : Tables → Text → Option ℕ
skill_id_by_path t path = elim (find_row path t.skills) [ none ↦ none | some r ↦ some r.id ]

pub upsert_skill : Tables → Skill → Tables
upsert_skill t s = record t {
  skills = upsert_rows t.next_id s t.skills;
  next_id = elim (find_row s.path t.skills) [ none ↦ t.next_id + 1 | some r ↦ t.next_id ];
}

abbrev pub scope_value : Text → ScopeValue
scope_value scope = record {
  scope = scope;
  path_prefix = (classify_scope scope).1;
  pattern_type = (classify_scope scope).0;
}

abbrev pub search_value : Skill → SearchValue
search_value s = record {
  name = s.name;
  description = s.description;
  headings = headings_text s.content;
  body = s.content;
}

-- The statements of InsertSkill below the upsert.
pub replace_children : Tables → ℕ → Skill → Tables
replace_children t id s = record t {
  search = insert_rows id (search_value s ∷ []) (delete_rows id t.search);
  topics = insert_rows id s.topics (delete_rows id t.topics);
  tags = insert_rows id s.tags (delete_rows id t.tags);
  scopes = insert_rows id (map scope_value s.scopes) (delete_rows id t.scopes);
}

-- InsertSkill: the id of the skill and the new tables, or sql.ErrNoRows.
pub insert_skill : Tables → Skill → Option (ℕ × Tables)
insert_skill t s =
    let t' = upsert_skill t s in
    elim (skill_id_by_path t' s.path) [
      | none ↦ none
      | some id ↦ some (id, replace_children t' id s)
    ]

pub delete_skill_row : ℕ → List SkillRow → List SkillRow
delete_skill_row id [] = []
delete_skill_row id (r ∷ rs) =
    let rest = delete_skill_row id rs in if r.id == id then rest else r ∷ rest

-- DeleteSkillByPath, with the cascade of the foreign keys.
unfoldable pub delete_skill_by_path : Tables → Text → Tables
delete_skill_by_path t path = elim (skill_id_by_path t path) [
  | none ↦ t
  | some id ↦ record t {
    search = delete_rows id t.search;
    skills = delete_skill_row id t.skills;
    topics = delete_rows id t.topics;
    tags = delete_rows id t.tags;
    scopes = delete_rows id t.scopes;
    tests = delete_rows id t.tests;
  }
]

-- DeleteTestsForSkill
unfoldable pub delete_tests_for_skill : Tables → ℕ → Tables
delete_tests_for_skill t id = record t { tests = delete_rows id t.tests }

-- InsertTestScenario, whose caller has joined the lists; it fails where no skill has the id, for the
-- foreign key of the table.
unfoldable pub insert_test_scenario : Tables → ℕ → TestValue → Option Tables
insert_test_scenario t id v =
    if any (λ r. r.id == id) t.skills
    then some (record t { tests = insert_rows id (v ∷ []) t.tests })
    else none

abbrev pub scope_text : ScopeValue → Text
scope_text v = v.scope

-- populateMeta
unfoldable pub populate_meta : Tables → SkillRow → Skill
populate_meta t r = record {
  id = r.id;
  path = r.path;
  content = r.content;
  name = r.name;
  description = r.description;
  package_name = r.package_name;
  package_version = r.package_version;
  visibility = r.visibility;
  source_type = r.source_type;
  topics = rows_of r.id t.topics;
  tags = rows_of r.id t.tags;
  scopes = map scope_text (rows_of r.id t.scopes);
}

-- GetSkillByPath
unfoldable pub get_skill_by_path : Tables → Text → Option Skill
get_skill_by_path t path = elim (find_row path t.skills) [
  | none ↦ none
  | some r ↦ some (populate_meta t r)
]
