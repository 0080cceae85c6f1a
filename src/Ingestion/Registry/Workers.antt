-- ===== src/Ingestion/Registry/Workers.antt =====
-- backend/app/workers/__init__.py: `build_worker`.
use mathlib.Core.Option.{some-injective}
use asber.Base.{
  Option, Text, codes, if◌then◌else◌, none, some, text_eq, Bool, Bool-cases, List, [], all, arith,
  false, find, inl, inr, refl, true, ◌∷◌, ◌≡◌, ap, sym, ◌∙◌, text_eq_iff,
}
use asber.Ingestion.Registry.Defs.{SourceDef}
use asber.Ingestion.Registry.Table.{registry_by_key, has_key, source_registry}
use asber.Ingestion.Registry.Sync.{is_enabled, has_worker, Settings}

pub data Worker : Type 0 where
  cisa_kev_worker : Worker
  nvd_worker : Worker
  mitre_attack_worker : Worker
  exploit_db_worker : Worker
  github_worker : Worker
  malware_bazaar_worker : Worker
  urlhaus_worker : Worker
  sigma_worker : Worker
  feed_worker : Text → Worker

abbrev pub worker_named : Text → Text → Option Worker
worker_named key name =
    if text_eq name (codes "cisa_kev")
    then some cisa_kev_worker
    else if text_eq name (codes "nvd")
    then some nvd_worker
    else if text_eq name (codes "mitre_attack")
    then some mitre_attack_worker
    else if text_eq name (codes "exploitdb")
    then some exploit_db_worker
    else if text_eq name (codes "github")
    then some github_worker
    else if text_eq name (codes "malwarebazaar")
    then some malware_bazaar_worker
    else if text_eq name (codes "urlhaus")
    then some urlhaus_worker
    else if text_eq name (codes "sigma")
    then some sigma_worker
    else if text_eq name (codes "feed")
    then some (feed_worker key)
    else none

abbrev pub worker_for : Text → Option Text → Option Worker
worker_for key none = none
worker_for key (some name) = worker_named key name

abbrev pub worker_of : Text → Option SourceDef → Option Worker
worker_of key none = none
worker_of key (some sdef) = worker_for key sdef.worker

-- `none` is the `KeyError`, of a key that is not registered or has no worker yet.
unfoldable pub build_worker : Text → Option Worker
unfolding registry_by_key
build_worker key = worker_of key (registry_by_key key)

abbrev is_built : Option Worker → Bool
is_built none = false
is_built (some w) = true

-- An entry with a worker's name has one that `build_worker` knows.
abbrev is_known : SourceDef → Bool
is_known sdef = if has_worker sdef then is_built (worker_for sdef.key sdef.worker) else true

all_known : all is_known source_registry ≡ true
unfolding source_registry
all_known = refl

is_enabled-has_worker :
    (settings : Settings) (sdef : SourceDef)
    → is_enabled settings sdef ≡ true
    → has_worker sdef ≡ true
unfolding is_enabled
is_enabled-has_worker settings sdef h = ground arith

find-all :
    (p q : SourceDef → Bool) (xs : List SourceDef) (x : SourceDef)
    → find p xs ≡ some x
    → all q xs ≡ true
    → (p x ≡ true) × (q x ≡ true)
find-all p q [] x e h = ground arith
find-all p q (y ∷ xs) x e h = elim (Bool-cases (p y)) [
  | inl t ↦
      let r : y ≡ x = some-injective y x (rw t at e) in
      let first : q y ≡ true = ground arith in (ap p (sym r) ∙ t, ap q (sym r) ∙ first)
  | inr t ↦ find-all p q xs x (rw t at e) (ground arith)
]

built : (o : Option Worker) → is_built o ≡ true → (w : Worker) × (o ≡ some w)
built none h = ground arith
built (some w) h = (w, refl)

-- Every source of the registry that `sync_registry` enables, under whatever settings, has a worker
-- that `build_worker` returns: the scheduler never meets its `KeyError` for one.
pub enabled_source_builds :
    (settings : Settings) (key : Text) (sdef : SourceDef)
    → registry_by_key key ≡ some sdef
    → is_enabled settings sdef ≡ true
    → (w : Worker) × (build_worker key ≡ some w)
unfolding build_worker
enabled_source_builds settings key sdef e h =
    let f = find-all (has_key key) is_known source_registry sdef e all_known in
    let r : sdef.key ≡ key = (text_eq_iff sdef.key key).0 f.0 in
    let known : is_built (worker_for sdef.key sdef.worker) ≡ true =
      rw (is_enabled-has_worker settings sdef h) at f.1 in
    let (w, q) = built (worker_for sdef.key sdef.worker) known in
    (w, rw e (ap (λ k. worker_for k sdef.worker) (sym r) ∙ q))
