-- ===== src/Tests/Stores.antt =====
-- The libdns provider over a client that keeps one record, whose id is 1.
use k8s_dns_manager.Prelude.{
  ◌≡◌, ◌≢◌, refl, ◌∙◌, inl, inr, Bool, true, false, Option, none, some, List, [], ◌∷◌, ◌++◌, codes,
  Text, external, ok, err, text_eq, text_eq_iff, text_eq_refl, if◌then◌else◌, arith, Bool-cases,
  is_some,
}
use k8s_dns_manager.GoStrings.{trim_left, has_suffix, trim_right, trim_space, replace, join}
use k8s_dns_manager.Libdns.{
  LibRecord, Client, ClientCall, get_records, append_records, delete_records,
}
use k8s_dns_manager.Libdns.Names.{make_record, fqdn, unquote}
use k8s_dns_manager.Libdns.Provider.{Prov, find_id}
use k8s_dns_manager.Libdns.Provider.Stable.{IsStable}
use k8s_dns_manager.Libdns.Provider.Store.{Store, Unfailing}
use k8s_dns_manager.Tests.Samples.{deps, a_rr, a_record}

abbrev one : Text
one = codes "1"

abbrev with_id : Text → LibRecord → LibRecord
with_id id r = record r { id = id }

-- The record of another owner, which every zone has from the beginning.
abbrev pub foreign : LibRecord
foreign = record {
  id = codes "7";
  rtype = codes "TXT";
  name = codes "other.example.org.";
  value = codes "text";
  ttl = 60;
}

unfoldable without_id : Text → List LibRecord → List LibRecord
without_id id [] = []
without_id id (v ∷ vs) = let rest = without_id id vs in if text_eq v.id id then rest else v ∷ rest

unfoldable pub zone_after : List ClientCall → Text → List LibRecord
unfolding without_id
zone_after [] z = foreign ∷ []
zone_after (get_records y ∷ log) z = zone_after log z
zone_after (append_records y r ∷ log) z =
    zone_after log z ++ (if text_eq y z then with_id one r ∷ [] else [])
zone_after (delete_records y r ∷ log) z =
    let before = zone_after log z in if text_eq y z then without_id r.id before else before

-- A relative name, with or without a dot at its end, and its zone.
pub absolute : Text → Text → Text
absolute name zone =
    if has_suffix name (codes ".") then name ++ zone else name ++ (codes "." ++ zone)

abbrev bare : Prov
bare = record {
  name = codes "test";
  client = record {
    on_get = λ log z. ([], none);
    on_append = λ log z r. ok [];
    on_delete = λ log z r. none;
  };
  absolute_name = absolute;
}

-- There is a record of the id already.
unfoldable pub is_taken : List LibRecord → Bool
is_taken vs = is_some (find_id one vs)

abbrev pub client : Client
client = record {
  on_get = λ log z. (zone_after log z, none);
  on_append = λ log z r.
      if is_taken (zone_after log z)
      then err (external (codes "refused"))
      else ok (with_id one r ∷ []);
  on_delete = λ log z r. none;
}

abbrev pub prov : Prov
prov = record { name = codes "test"; client = client; absolute_name = absolute }

find_id-append :
    (i : Text) (xs ys : List LibRecord) (v : LibRecord)
    → find_id i xs ≡ some v
    → find_id i (xs ++ ys) ≡ some v
unfolding find_id
find_id-append i [] ys v e = cc
find_id-append i (x ∷ xs) ys v e = ground (arith, find_id-append i xs ys v)

find_id-new :
    (i : Text) (xs : List LibRecord) (v : LibRecord)
    → find_id i xs ≡ none
    → text_eq v.id i ≡ true
    → find_id i (xs ++ v ∷ []) ≡ some v
unfolding find_id
find_id-new i [] v e h = rw h refl
find_id-new i (x ∷ xs) v e h = ground (arith, find_id-new i xs v)

find_id-without : (i : Text) (xs : List LibRecord) → find_id i (without_id i xs) ≡ none
unfolding find_id without_id
find_id-without i [] = refl
find_id-without i (x ∷ xs) = ground (arith, find_id-without i xs)

find_id-others :
    (i j : Text) (xs : List LibRecord) → i ≢ j → find_id i (without_id j xs) ≡ find_id i xs
unfolding find_id without_id
find_id-others i j [] h = refl
find_id-others i j (x ∷ xs) h =
    ground (arith, find_id-others i j xs h, text_eq_iff x.id i, text_eq_iff x.id j)

is_taken-lem : (vs : List LibRecord) → is_taken vs ≡ false → find_id one vs ≡ none
unfolding is_taken
is_taken-lem vs h = go (find_id one vs) h
  where
    go : (o : Option LibRecord) → is_some o ≡ false → o ≡ none
    go none e = refl
    go (some v) e = cc

on_append-ok :
    (log : List ClientCall) (z : Text) (r x : LibRecord)
    → client.on_append log z r ≡ ok (x ∷ [])
    → (is_taken (zone_after log z) ≡ false) × (x ≡ with_id one r)
on_append-ok log z r x e = elim (Bool-cases (is_taken (zone_after log z))) [
  | inl taken ↦ cc (rw taken at e)
  | inr free ↦ (free, cc (rw free at e))
]

pub prov-Store : Store deps prov
unfolding zone_after
prov-Store = record {
  contents = zone_after;
  lists = λ log z e. refl;
  listing = λ log y z. refl;
  created = λ log z r x e.
      let (free, same) = on_append-ok log z r x e in
      let absent = is_taken-lem (zone_after log z) free in
      rw (same, text_eq_refl z)
        (find_id-new one (zone_after log z) (with_id one r) absent (text_eq_refl one));
  populated = λ log z r x e. let (free, same) = on_append-ok log z r x e in rw same refl;
  kept = λ log y z i r v e. find_id-append i (zone_after log z) _ v e;
  deleted = λ log z r e. rw (text_eq_refl z) (find_id-without r.id (zone_after log z));
  others = λ log y z i r v other e. elim (Bool-cases (text_eq y z)) [
    | inl here ↦ rw here (find_id-others i r.id (zone_after log z) other ∙ e)
    | inr away ↦ rw away e
  ];
}

pub prov-Unfailing : Unfailing prov
prov-Unfailing log z = refl

-- The address of the record and its name in the zone.
pub a_rr-IsStable :
    (id : Text)
    → let zone = deps.fqdn (codes "example.org") in
      IsStable deps zone (make_record deps a_rr zone id)
unfolding make_record unquote trim_left trim_right trim_space replace has_suffix text_eq
a_rr-IsStable id = record {
  name = record { absolute = refl; ends = refl };
  unquoted = refl;
  whole = refl;
  target = λ e. cc;
}

pub a_rr-domain :
    deps.domain (join (deps.split_domain_name a_rr.header.name) (codes "."))
    ≡ ok (codes "example.org")
unfolding has_suffix join
a_rr-domain = refl

foreign-there : find_id (codes "7") (prov-Store.contents [] (codes "example.org.")) ≡ some foreign
unfolding prov-Store find_id zone_after text_eq
foreign-there = refl

seven-apart : codes "7" ≢ a_record.status.id
seven-apart e = cc

-- No record of the store has an empty id.
find_id-without_id :
    (id i : Text) (vs : List LibRecord) → find_id i vs ≡ none → find_id i (without_id id vs) ≡ none
unfolding find_id without_id
find_id-without_id id i [] h = refl
find_id-without_id id i (v ∷ vs) h = ground (arith, find_id-without_id id i vs)

find_id-append_none :
    (i : Text) (xs ys : List LibRecord)
    → find_id i xs ≡ none
    → find_id i ys ≡ none
    → find_id i (xs ++ ys) ≡ none
unfolding find_id
find_id-append_none i [] ys h k = k
find_id-append_none i (x ∷ xs) ys h k = ground (arith, find_id-append_none i xs ys)

one_record_none :
    (b : Bool) (r : LibRecord) → find_id [] (if b then with_id one r ∷ [] else []) ≡ none
unfolding find_id text_eq
one_record_none true r = refl
one_record_none false r = refl

find_id-zone_after : (log : List ClientCall) (z : Text) → find_id [] (zone_after log z) ≡ none
unfolding find_id zone_after text_eq
find_id-zone_after [] z = refl
find_id-zone_after (get_records y ∷ log) z = find_id-zone_after log z
find_id-zone_after (append_records y r ∷ log) z =
    find_id-append_none [] (zone_after log z) _ (find_id-zone_after log z)
      (one_record_none (text_eq y z) r)
find_id-zone_after (delete_records y r ∷ log) z = elim (Bool-cases (text_eq y z)) [
  | inl same ↦ rw same (find_id-without_id r.id [] (zone_after log z) (find_id-zone_after log z))
  | inr other ↦ rw other (find_id-zone_after log z)
]

pub find_id-contents :
    (log : List ClientCall) (z : Text) → find_id [] (prov-Store.contents log z) ≡ none
unfolding prov-Store
find_id-contents log z = find_id-zone_after log z
