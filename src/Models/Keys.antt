-- ===== src/Models/Keys.antt =====
-- The identity keys of engine/models.py.
use Prim.Native.String.{◌++◌ as append_text}
use zero_shadow_autonomous_a.Prelude.{
  String, ◌≡◌, ◌≢◌, refl, ◌∙◌, sym, true, false, Option, none, some, List, [], ◌∷◌, ◌++◌, arith,
  ◌==◌, In, inl, inr, ◌⊎◌, ◌↔◌, Bool-cases, ◌||◌, eq_iff,
}
use zero_shadow_autonomous_a.Prelude.Sorting.{
  contains-sorted_set, contains-In, In-contains, IsUnique, IsSorted, sorted_set,
  sorted_set-IsUnique, sorted_set-IsSorted,
}
use zero_shadow_autonomous_a.Prelude.Text.{text_le}
use zero_shadow_autonomous_a.Models.{
  AssetObservation, source_key, host_key, cloud_key, has_code, identity_list, identity_keys,
}

-- The key is that of a host name with a dot.
pub record IsHostKey (o : AssetObservation) (key : String) : Type 0 where
  pub name : String
  pub named : o.hostname ≡ some name
  pub dotted : has_code 46 name ≡ true
  pub spelled : key ≡ append_text "fqdn:" name

-- The key is that of a cloud identity of which no part is missing or empty.
pub record IsCloudKey (lower : String → String) (o : AssetObservation) (key : String) : Type 0 where
  pub provider : String
  pub account : String
  pub resource : String
  pub of_provider : o.cloud_provider ≡ some provider
  pub of_account : o.cloud_account ≡ some account
  pub of_resource : o.cloud_resource_id ≡ some resource
  pub filled : (provider ≢ "") × (account ≢ "") × (resource ≢ "")
  pub spelled :
      key
      ≡ append_text "cloud:" (
          append_text
            (lower provider)
            (append_text ":" (append_text account (append_text ":" resource))))

pub record IsIdentified (lower : String → String) (o : AssetObservation) : Type 0 where
  pub unique : IsUnique (identity_keys lower o)
  pub ordered : IsSorted text_le (identity_keys lower o)
  pub keys :
      (key : String)
      → In key (identity_keys lower o)
        ↔ ((key ≡ source_key o) ⊎ (IsHostKey o key ⊎ IsCloudKey lower o key))

In-append : (k : String) (xs ys : List String) → In k (xs ++ ys) → In k xs ⊎ In k ys
In-append k [] ys m = inr m
In-append k (x ∷ xs) ys (inl e) = inl (inl e)
In-append k (x ∷ xs) ys (inr m) = elim (In-append k xs ys m) [ inl n ↦ inl (inr n) | inr n ↦ inr n ]

append-In : (k : String) (xs ys : List String) → In k xs ⊎ In k ys → In k (xs ++ ys)
append-In k [] ys (inl m) = absurd m
append-In k [] ys (inr m) = m
append-In k (x ∷ xs) ys (inl (inl e)) = inl e
append-In k (x ∷ xs) ys (inl (inr m)) = inr (append-In k xs ys (inl m))
append-In k (x ∷ xs) ys (inr m) = inr (append-In k xs ys (inr m))

host_key-IsHostKey :
    (o : AssetObservation) (k : String) → In k (host_key o.hostname) → IsHostKey o k
host_key-IsHostKey o k m = of_name o.hostname refl m
  where
    of_name : (h : Option String) → o.hostname ≡ h → In k (host_key h) → IsHostKey o k
    of_name none e m = absurd m
    of_name (some name) e m = elim (Bool-cases (has_code 46 name)) [
      | inr has_not ↦ absurd (rw has_not at m)
      | inl has ↦ elim (rw has at m) as (λ z. IsHostKey o k) [
        | inl same ↦ record { name = name; named = e; dotted = has; spelled = sym same }
        | inr n ↦ absurd n
      ]
    ]

IsHostKey-host_key :
    (o : AssetObservation) (k : String) → IsHostKey o k → In k (host_key o.hostname)
IsHostKey-host_key o k h = rw (h.named, h.dotted) (inl (sym h.spelled))

cloud_key-IsCloudKey :
    (lower : String → String) (o : AssetObservation) (k : String)
    → In k (cloud_key lower o.cloud_provider o.cloud_account o.cloud_resource_id)
    → IsCloudKey lower o k
cloud_key-IsCloudKey lower o k m =
    of_parts o.cloud_provider o.cloud_account o.cloud_resource_id refl refl refl m
  where
    of_parts :
        (p a r : Option String)
        → o.cloud_provider ≡ p
        → o.cloud_account ≡ a
        → o.cloud_resource_id ≡ r
        → In k (cloud_key lower p a r)
        → IsCloudKey lower o k
    of_parts (some p) (some a) (some r) ep ea er m =
        elim (Bool-cases (p == "" || a == "" || r == "")) [
          | inl empty ↦ absurd (rw empty at m)
          | inr full ↦ elim (rw full at m) as (λ z. IsCloudKey lower o k) [
            | inl same ↦ record {
              provider = p;
              account = a;
              resource = r;
              of_provider = ep;
              of_account = ea;
              of_resource = er;
              filled = (
                λ e. ground (arith, full, eq_iff p ""),
                λ e. ground (arith, full, eq_iff a ""),
                λ e. ground (arith, full, eq_iff r ""),
              );
              spelled = sym same;
            }
            | inr n ↦ absurd n
          ]
        ]
    of_parts none a r ep ea er m = absurd m
    of_parts (some p) none r ep ea er m = absurd m
    of_parts (some p) (some a) none ep ea er m = absurd m

IsCloudKey-cloud_key :
    (lower : String → String) (o : AssetObservation) (k : String)
    → IsCloudKey lower o k
    → In k (cloud_key lower o.cloud_provider o.cloud_account o.cloud_resource_id)
IsCloudKey-cloud_key lower o k h =
    let (n1, n2, n3) = h.filled in
    let full : (h.provider == "" || h.account == "" || h.resource == "") ≡ false =
      ground (arith, n1, n2, n3, eq_iff h.provider "", eq_iff h.account "", eq_iff h.resource "") in
    rw (h.of_provider, h.of_account, h.of_resource, full) (inl (sym h.spelled))

-- The keys of an observation are distinct and in order: its source's own key, that of a host name with a
-- dot, that of a cloud identity with no part missing or empty, and no other.
pub identity_keys-IsIdentified :
    (lower : String → String) (o : AssetObservation) → IsIdentified lower o
unfolding identity_keys
identity_keys-IsIdentified lower o = record {
  unique = sorted_set-IsUnique (identity_list lower o);
  ordered = sorted_set-IsSorted (identity_list lower o);
  keys = λ k. (λ m. read k (listed k m), λ e. back k (found k e));
}
  where
    cloud : List String
    cloud = cloud_key lower o.cloud_provider o.cloud_account o.cloud_resource_id

    listed : (k : String) → In k (sorted_set (identity_list lower o)) → In k (identity_list lower o)
    listed k m = contains-In k (identity_list lower o) (
        sym (contains-sorted_set k (identity_list lower o))
        ∙ In-contains k (sorted_set (identity_list lower o)) m)

    back : (k : String) → In k (identity_list lower o) → In k (sorted_set (identity_list lower o))
    back k m =
        contains-In k (sorted_set (identity_list lower o))
          (contains-sorted_set k (identity_list lower o) ∙ In-contains k (identity_list lower o) m)

    read :
        (k : String)
        → In k (identity_list lower o)
        → (k ≡ source_key o) ⊎ (IsHostKey o k ⊎ IsCloudKey lower o k)
    read k (inl e) = inl (sym e)
    read k (inr m) = elim (In-append k (host_key o.hostname) cloud m) [
      | inl n ↦ inr (inl (host_key-IsHostKey o k n))
      | inr n ↦ inr (inr (cloud_key-IsCloudKey lower o k n))
    ]

    found :
        (k : String)
        → (k ≡ source_key o) ⊎ (IsHostKey o k ⊎ IsCloudKey lower o k)
        → In k (identity_list lower o)
    found k (inl e) = inl (sym e)
    found k (inr (inl h)) =
        inr (append-In k (host_key o.hostname) cloud (inl (IsHostKey-host_key o k h)))
    found k (inr (inr h)) =
        inr (append-In k (host_key o.hostname) cloud (inr (IsCloudKey-cloud_key lower o k h)))
