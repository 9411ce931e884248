-- ===== src/Executioner/Requests/Plans.antt =====
-- execution/executioner.cpp: what handle_exec_request has checked when it comes to the prepare.
use velix.Prelude.{
  ℤ, Str, Option, none, some, Bool, true, false, str_eq, codes, ◌≡◌, refl, arith, Option-cases, inl,
  inr, is_empty, if_known, List,
}
use velix.Executioner.Json.{Json, object, array, Items, Members, no_members, lookup, value, Read}
use velix.Executioner.Params.{ParamError, validate_params}
use velix.Executioner.Params.Fitting.{Required, Typed, accepted-Required, accepted-Typed}
use velix.Executioner.Adapters.{Machine, PrepareStep, Resolution, Outcome, done, refused, thrown}
use velix.Executioner.Adapters.Others.{select_runtime_adapter}
use velix.Executioner.Adapters.Selection.{
  Ensures, returns, refuses, throws, IsResolved, select_runtime_adapter-IsResolved,
}
use velix.Executioner.Packages.{Disk, CachedPackage, PackageCache, Resolved, resolve_package}
use velix.Executioner.Packages.Cached.{
  IsPackage, IsCache, Finds, finds, finds_none, throws as cache_throws, resolve_package-Finds,
}
use velix.Executioner.Requests.{
  Phase, adapter_phase, Request, Checked, passes, replies, raises, and_pass, check, intent_error,
  of_resolved, of_verdict, of_outcome, of_value, Plan, merged, Directories, plan_package,
  plan_request,
}
use velix.Executioner.Requests.Intents.{IsIntended, intent_error-IsIntended}

-- The property holds of a value that is passed on.
pub data Grants {A : Type 0} (P : A → Type 0) : Checked A → Type 0 where
  grants : (a : A) → P a → Grants P (passes a)
  answers : (phase : Phase) (e : Str) → Grants P (replies phase e)
  ends_raised : Grants P raises

Grants-and_pass :
    {A B : Type 0} (Q : B → Type 0) (m : Checked A) (f : A → Checked B)
    → ((a : A) → m ≡ passes a → Grants Q (f a))
    → Grants Q (and_pass m f)
unfolding and_pass
Grants-and_pass Q (passes a) f q = q a refl
Grants-and_pass Q (replies phase e) f q = answers phase e
Grants-and_pass Q raises f q = ends_raised

Grants-check :
    {A : Type 0} (Q : A → Type 0) (t : Bool) (phase : Phase) (e : Str) (m : Checked A)
    → (t ≡ true → Grants Q m)
    → Grants Q (check t phase e m)
unfolding check
Grants-check Q true phase e m q = q refl
Grants-check Q false phase e m q = answers phase e

of_value-passes : {A : Type 0} (r : Read A) (a : A) → of_value r ≡ passes a → r ≡ some a
of_value-passes none a h = absurd (ground (arith, h))
of_value-passes (some b) a h = ground (arith, h)

of_verdict-passes :
    (v : Read (Option ParamError)) (b : Bool) → of_verdict v ≡ passes b → v ≡ some none
of_verdict-passes none b h = absurd (ground (arith, h))
of_verdict-passes (some none) b h = refl
of_verdict-passes (some (some e)) b h = absurd (ground (arith, h))

of_outcome-passes :
    {A : Type 0} (phase : Phase) (o : Outcome A) (a : A)
    → of_outcome phase o ≡ passes a
    → o ≡ done a
of_outcome-passes phase (done b) a h = ground (arith, h)
of_outcome-passes phase (refused e) a h = absurd (ground (arith, h))
of_outcome-passes phase thrown a h = absurd (ground (arith, h))

Ensures-done :
    {A : Type 0} (P : A → Type 0) (o : Outcome A) (a : A) → o ≡ done a → Ensures P o → P a
Ensures-done P o a e (returns b p) = let q : a ≡ b = ground (arith, e) in rw (q) p
Ensures-done P o a e (refuses b) = absurd (ground (arith, e))
Ensures-done P o a e throws = absurd (ground (arith, e))

-- What the schema of a package asks of the parameters, where it has the usual shape: an array of required keys, all of
-- which are there, and an object of properties, whose types are those that the code knows.
pub record AreAccepted (params manifest : Json) : Type 0 where
  pub schema : Json
  pub declared : value (codes "parameters") manifest (object no_members) ≡ some schema
  pub required :
      (m : Members) (keys : Items)
      → schema ≡ object m
      → lookup (codes "required") m ≡ some (array keys)
      → Required params keys
  pub typed :
      (m properties : Members)
      → schema ≡ object m
      → lookup (codes "properties") m ≡ some (object properties)
      → Typed params properties

validate_params-AreAccepted :
    (params manifest schema : Json)
    → value (codes "parameters") manifest (object no_members) ≡ some schema
    → validate_params params schema ≡ some none
    → AreAccepted params manifest
validate_params-AreAccepted params manifest schema s v = record {
  schema = schema;
  declared = s;
  required = λ m keys shape r. accepted-Required params m (rw shape at v) keys r;
  typed = λ m properties shape p. accepted-Typed params m (rw shape at v) properties p;
}

-- What a plan has been checked for.
pub record IsPlan (machine : Machine) (dirs : Directories) (req : Request) (plan : Plan)
    : Type 0 where
  pub has_params : AreAccepted req.params plan.package_found.manifest
  pub has_workdir : dirs.is_directory plan.workdir ≡ true
  pub has_runtime : IsResolved machine plan.workdir plan.runtime

made-IsPlan :
    (machine : Machine) (dirs : Directories) (timeout : ℤ) (req : Request) (pkg : CachedPackage)
    (schema : Json) (valid : Bool) (relative : Str) (runtime : Resolution)
    (steps : List PrepareStep)
    → of_value (value (codes "parameters") pkg.manifest (object no_members)) ≡ passes schema
    → of_verdict (validate_params req.params schema) ≡ passes valid
    → dirs.is_directory (dirs.normal pkg.path relative) ≡ true
    → of_outcome adapter_phase
        (select_runtime_adapter machine pkg.manifest (dirs.normal pkg.path relative))
      ≡ passes runtime
    → IsPlan machine dirs req record {
      package_found = pkg;
      workdir = dirs.normal pkg.path relative;
      runtime = runtime;
      steps = merged runtime steps;
    }
made-IsPlan machine dirs timeout req pkg schema valid relative runtime steps s v d r = record {
  has_params =
      validate_params-AreAccepted req.params pkg.manifest schema (of_value-passes _ schema s)
        (of_verdict-passes (validate_params req.params schema) valid v);
  has_workdir = d;
  has_runtime =
      Ensures-done (IsResolved machine (dirs.normal pkg.path relative)) _ runtime
        (of_outcome-passes adapter_phase _ runtime r)
        (select_runtime_adapter-IsResolved machine (dirs.normal pkg.path relative) pkg.manifest);
}

plan_package-IsPlan :
    (machine : Machine) (dirs : Directories) (timeout : ℤ) (req : Request) (pkg : CachedPackage)
    → Grants
        (λ (plan : Plan). IsPlan machine dirs req plan × (plan.package_found ≡ pkg))
        (plan_package machine dirs timeout req pkg)
unfolding plan_package
plan_package-IsPlan machine dirs timeout req pkg =
    let made = made-IsPlan machine dirs timeout req pkg in
    search (Grants-and_pass, Grants-check, grants, made) depth 14

-- The whole: the request, its package and its plan.
pub record IsRequested (machine : Machine) (dirs : Directories) (req : Request) (plan : Plan)
    : Type 0 where
  pub intended : IsIntended req
  pub package_accepted : IsPackage req.name plan.package_found
  pub planned : IsPlan machine dirs req plan

module _ (machine : Machine) (dirs : Directories) (timeout : ℤ) (req : Request) where
  abbrev pub Requested : Checked Plan × PackageCache → Type 0
  Requested result = Grants (IsRequested machine dirs req) result.0 × IsCache result.1

  Grants-map :
      (P Q : Plan → Type 0) (m : Checked Plan)
      → Grants P m
      → ((plan : Plan) → P plan → Q plan)
      → Grants Q m
  Grants-map P Q m (grants plan p) f = grants plan (f plan p)
  Grants-map P Q m (answers phase e) f = answers phase e
  Grants-map P Q m ends_raised f = ends_raised

  resolved-Requested :
      (r : Resolved × PackageCache)
      → IsIntended req
      → Finds req.name r
      → Requested (and_pass (of_resolved req.name r.0) (plan_package machine dirs timeout req), r.1)
  unfolding and_pass
  resolved-Requested r i (finds pkg cache p c) =
      let plan = plan_package-IsPlan machine dirs timeout req pkg in
      (
        Grants-map (λ (plan : Plan). IsPlan machine dirs req plan × (plan.package_found ≡ pkg))
            (IsRequested machine dirs req) (plan_package machine dirs timeout req pkg) plan
            (λ plan q. record { intended = i; package_accepted = rw (q.1) p; planned = q.0 }),
        c,
      )
  resolved-Requested r i (finds_none cache c) = (answers _ _, c)
  resolved-Requested r i (cache_throws cache c) = (ends_raised, c)

  -- Whatever the request, if it comes to the prepare: its intent is allowed; its package's manifest was accepted for
  -- its name; every key that the schema's array of required keys names is among its parameters, and those that have a
  -- property are of the named type, where that is one of the five that the code knows; its working directory is there;
  -- and its runtime has a version and a command of its kind, a script or an entry that is a file there, or a path that
  -- starts with ./ or ../, which need not exist. The cache of packages keeps its invariant, whatever the outcome.
  pub plan_request-Requested :
      (disk : Disk) (cache : PackageCache)
      → IsCache cache
      → Requested (plan_request machine disk dirs timeout cache req)
  unfolding plan_request
  plan_request-Requested disk cache c = elim (Option-cases (intent_error req)) [
    | inr (reason, q) ↦ rw (q, plan_request) (answers _ _, c)
    | inl n ↦
        let r : Resolved × PackageCache =
          resolve_package machine disk req.name req.force_refresh cache in
        let i : IsIntended req = (intent_error-IsIntended req).0 n in
        rw (n, plan_request)
          (if_known Requested (is_empty req.name) _ _ (λ f. (answers _ _, c))
            (λ f.
              resolved-Requested r i
                (resolve_package-Finds machine disk req.name req.force_refresh cache c)))
  ]
