-- ===== src/SocketUtilities/Endpoint.antt =====
-- include/socket_utilities.h, `getEndpoint`: which of the addresses it chooses.
use async_event_loop.Base.{
  int_tests, ℤ, pos, ◌≡◌, ◌≢◌, refl, ◌⊎◌, inl, inr, Bool, Option, none, some, List, [], ◌∷◌, ◌++◌,
  Bytes, int_eqb, int_eqb_iff, Bool-cases, All, if◌then◌else◌,
}
use async_event_loop.Kernel.{Kernel, AddrInfo}
use async_event_loop.SocketUtilities.{select_endpoint, get_endpoint, endpoint_hints}

abbrev OtherFamily : ℤ → List AddrInfo → Type 0
OtherFamily family = All (λ info. info.ai_family ≢ family)

-- `e` is the last entry of the list with this family.
pub record IsLastOf (family : ℤ) (list : List AddrInfo) (e : AddrInfo) : Type 0 where
  pub before : List AddrInfo
  pub after : List AddrInfo
  pub split : list ≡ before ++ (e ∷ after)
  pub family_eq : e.ai_family ≡ family
  pub others : OtherFamily family after

-- The last entry of the family, or nothing if there is none.
abbrev pub Chooses : ℤ → List AddrInfo → Option AddrInfo → Type 0
Chooses family list none = OtherFamily family list
Chooses family list (some e) = IsLastOf family list e

IsLastOf-cons :
    {family : ℤ} {list : List AddrInfo} {e : AddrInfo} (info : AddrInfo)
    → IsLastOf family list e
    → IsLastOf family (info ∷ list) e
IsLastOf-cons info l = record {
  before = info ∷ l.before;
  after = l.after;
  split = λ i. info ∷ l.split i;
  family_eq = l.family_eq;
  others = l.others;
}

-- The loop, for any `endpoint` that it starts from.
select_endpoint-cases :
    (family : ℤ) (endpoint : Option AddrInfo) (list : List AddrInfo)
    → (OtherFamily family list × (select_endpoint family endpoint list ≡ endpoint))
      ⊎ ((e : AddrInfo) × (select_endpoint family endpoint list ≡ some e) × IsLastOf family list e)
unfolding select_endpoint
select_endpoint-cases family endpoint [] = inl (tt, refl)
select_endpoint-cases family endpoint (info ∷ rest) =
    elim (Bool-cases (int_eqb info.ai_family family)) [
      | inl same ↦ rw same (elim (select_endpoint-cases family (some info) rest) [
        | inl (others, e) ↦ inr (
          info,
          e,
          record {
            before = [];
            after = rest;
            split = refl;
            family_eq = (int_eqb_iff info.ai_family family).0 same;
            others = others;
          },
        )
        | inr (e, chosen, l) ↦ inr (e, chosen, IsLastOf-cons info l)
      ])
      | inr differs ↦ rw differs (elim (select_endpoint-cases family endpoint rest) [
        | inl (others, e) ↦ inl ((grind int_tests, others), e)
        | inr (e, chosen, l) ↦ inr (e, chosen, IsLastOf-cons info l)
      ])
    ]

select_endpoint-Chooses :
    (family : ℤ) (list : List AddrInfo) → Chooses family list (select_endpoint family none list)
select_endpoint-Chooses family list = elim (select_endpoint-cases family none list) [
  | inl (others, e) ↦ rw e others
  | inr (_, chosen, l) ↦ rw chosen l
]

endpoint_of-Chooses :
    (family status : ℤ) (list : List AddrInfo)
    → let r = (if int_eqb status (pos 0) then select_endpoint family none list else none) in
      ((status ≡ pos 0) × Chooses family list r) ⊎ ((status ≢ pos 0) × (r ≡ none))
endpoint_of-Chooses family status list = elim (Bool-cases (int_eqb status (pos 0))) [
  | inl zero_status ↦
      rw zero_status
        (inl ((int_eqb_iff status (pos 0)).0 zero_status, select_endpoint-Chooses family list))
  | inr other ↦ rw other (inr (grind int_tests, refl))
]

-- If the lookup fails there is no endpoint; otherwise the endpoint is the last address of the
-- requested family in the list that the lookup gave, and there is none exactly if no address of the
-- list has that family.
pub get_endpoint-Chooses :
    (k : Kernel) (family : ℤ) (will_listen : Bool) (address port : Bytes) (s : k.State)
    → let (status, list) =
        (k.getaddrinfo
          (if will_listen then none else some address)
          port
          (endpoint_hints k family will_listen)
          s).0 in
      let r = (get_endpoint k family will_listen address port s).0 in
      ((status ≡ pos 0) × Chooses family list r) ⊎ ((status ≢ pos 0) × (r ≡ none))
unfolding get_endpoint
get_endpoint-Chooses k family will_listen address port s = endpoint_of-Chooses family _ _
