-- ===== src/Controllers/Children.antt =====
-- The DNSRecords that an Ingress or a Service owns (controllers/child_records.go).
pub mod Differences
pub mod Quiet
pub mod Writes
use Prim.Native.Nat.{ℕ}
use native.Mathlib.Decide.{ℕ_discrete}
use k8s_dns_manager.Prelude.{
  Bool, true, false, not, ◌||◌, Option, none, some, List, [], ◌∷◌, ◌++◌, Text, codes, Error,
  not_found, Result, ok, err, is_empty, text_eq, lookup, if◌then◌else◌,
}
use k8s_dns_manager.GoStrings.{replace_byte, decimal}
use k8s_dns_manager.Api.{OwnerReference, ObjectMeta, DnsRecordSpec, DnsRecord}
use k8s_dns_manager.Controllers.{
  Outcome, done, failed, Call, list, create, update, delete, World, Run, ◌>>=◌, pure, write,
}

-- metav1.IsControlledBy and ctrl.SetControllerReference, for the owner's metadata.
pub record Ownership : Type 0 where
  pub is_controlled_by : DnsRecord → ObjectMeta → Bool
  pub set_controller : ObjectMeta → DnsRecord → Result DnsRecord

unfoldable pub record_name : Text → Text → Text → ℕ → Text
record_name name typ host index =
    name
    ++ (codes "-"
        ++ (typ
            ++ (codes "-"
                ++ (replace_byte (replace_byte host b'.' (codes "-")) b'*' (codes "wildcard")
                    ++ (codes "-" ++ decimal index)))))

-- reflect.DeepEqual. A map of more than one key is compared with its order, which Go leaves out, and a
-- nil map or slice is not told from an empty one.
abbrev pub deep_equal {ℓ} : {A : Type ℓ} → Discrete A → A → A → Bool
deep_equal d a b = elim (d a b) [ yes _ ↦ true | no _ ↦ false ]

pub spec_discrete : Discrete DnsRecordSpec
spec_discrete = hlevel ℕ_discrete

pub annotations_discrete : Discrete (List (Text × Text))
annotations_discrete = hlevel ℕ_discrete

pub owners_discrete : Discrete (List OwnerReference)
owners_discrete = hlevel ℕ_discrete

-- The first item of the name.
unfoldable pub find : Text → List DnsRecord → Option DnsRecord
find n [] = none
find n (r ∷ rs) = if text_eq n r.metadata.name then some r else find n rs

pub record Diff : Type 0 where
  pub add : List DnsRecord
  pub update : List DnsRecord
  pub del : List DnsRecord

unfoldable pub is_changed : DnsRecord → DnsRecord → Bool
is_changed v vv =
    not (deep_equal spec_discrete v.spec vv.spec)
    || not (deep_equal annotations_discrete v.metadata.annotations vv.metadata.annotations)
    || not (deep_equal owners_discrete v.metadata.owner_references vv.metadata.owner_references)

-- `v.SetResourceVersion(vv.GetResourceVersion())`
abbrev pub with_version : DnsRecord → DnsRecord → DnsRecord
with_version v vv = record v {
  metadata = record v.metadata { resource_version = vv.metadata.resource_version };
}

-- What one wanted record appends to `add` and to `update`.
added : DnsRecord → Option DnsRecord → List DnsRecord
added v none = v ∷ []
added v (some vv) = []

updated : DnsRecord → Option DnsRecord → List DnsRecord
updated v none = []
updated v (some vv) = if is_changed v vv then with_version v vv ∷ [] else []

deleted : DnsRecord → Option DnsRecord → List DnsRecord
deleted v none = v ∷ []
deleted v (some vv) = []

unfoldable pub all_added : List DnsRecord → List DnsRecord → List DnsRecord
unfolding added
all_added got [] = []
all_added got (v ∷ want) = added v (find v.metadata.name got) ++ all_added got want

unfoldable pub all_updated : List DnsRecord → List DnsRecord → List DnsRecord
unfolding updated
all_updated got [] = []
all_updated got (v ∷ want) = updated v (find v.metadata.name got) ++ all_updated got want

unfoldable pub all_deleted : List DnsRecord → List DnsRecord → List DnsRecord
unfolding deleted
all_deleted want [] = []
all_deleted want (v ∷ got) = deleted v (find v.metadata.name want) ++ all_deleted want got

-- The two loops of `diffRecords`; the first one fills `add` and `update` in one pass.
unfoldable pub diff_records : List DnsRecord → List DnsRecord → Diff
diff_records got want = record {
  add = all_added got want;
  update = all_updated got want;
  del = all_deleted want got;
}

-- `client.IgnoreNotFound(err)`
abbrev pub ignore_not_found : Option Error → Option Error
ignore_not_found (some (not_found _)) = none
ignore_not_found e = e

abbrev pub keep_error : Option Error → Option Error
keep_error e = e

-- `if err != nil { return err }` before the rest
abbrev pub or_fail : Option Error → Run Outcome → Run Outcome
or_fail none rest = rest
or_fail (some e) rest = pure (failed e)

-- What a failed call leaves of a loop, or else the rest of the loop.
abbrev pub stop_or : Option Error → List Call → Option Error × List Call → Option Error × List Call
stop_or none log rest = rest
stop_or (some e) log rest = (some e, log)

module _ (w : World) where
  -- A loop of calls that ends at the first error; `ignore` drops the errors that do not count.
  unfoldable pub call_all :
      (Option Error → Option Error) → (DnsRecord → Call) → List DnsRecord → Run (Option Error)
  call_all ignore call [] log = (none, log)
  call_all ignore call (v ∷ vs) log =
      let rest = call_all ignore call vs (call v ∷ log) in
      stop_or (ignore (w.on_write log (call v))) (call v ∷ log) rest

  abbrev pub delete_all : List DnsRecord → Run (Option Error)
  delete_all = call_all ignore_not_found delete

  unfoldable pub apply_diff : Diff → Run Outcome
  apply_diff d = do
    deletion ← delete_all d.del
    or_fail deletion do
      creation ← call_all keep_error create d.add
      or_fail creation do change ← call_all keep_error update d.update; or_fail change (pure done)

  unfoldable pub reconcile_child_records : List DnsRecord → List DnsRecord → Run Outcome
  unfolding apply_diff
  reconcile_child_records got want = apply_diff (diff_records got want)

module _ (o : Ownership) where
  -- `v.Annotations[annotation]` is the owner's name; a record with no annotation is skipped first.
  is_restored : Text → ObjectMeta → DnsRecord → Bool
  is_restored annotation owner v = elim (lookup annotation v.metadata.annotations) [
    | none ↦ false
    | some n ↦ text_eq n owner.name
  ]

  -- The loop of `childRecords` over the listed records.
  unfoldable pub children_of : Text → ObjectMeta → List DnsRecord → Result (List DnsRecord)
  unfolding is_restored
  children_of annotation owner [] = ok []
  children_of annotation owner (v ∷ vs) =
      let rest = children_of annotation owner vs in
      if o.is_controlled_by v owner
      then elim rest [ ok got ↦ ok (v ∷ got) | err e ↦ err e ]
      else if is_empty v.metadata.annotations
      then rest
      else if is_restored annotation owner v
      then elim (o.set_controller owner v) [
        | err e ↦ err e
        | ok v' ↦ elim rest [ ok got ↦ ok (v' ∷ got) | err e ↦ err e ]
      ]
      else rest

  listed_children : Text → ObjectMeta → Result (List DnsRecord) → Result (List DnsRecord)
  listed_children annotation owner (err e) = err e
  listed_children annotation owner (ok items) = children_of annotation owner items

  unfoldable pub child_records : World → ObjectMeta → Text → Run (Result (List DnsRecord))
  unfolding listed_children
  child_records w owner annotation log =
      (listed_children annotation owner (w.on_list log owner.namespace), list owner.namespace ∷ log)
