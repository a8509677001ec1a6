-- ===== src/Instances/Reported.antt =====
-- What the addresses of a node are, kind by kind (exoscale/instances.go, lines 67-154).
use exoscale_cloud_controlle.Base.{
  String, ◌≡◌, refl, Bool, true, false, not, Option, none, some, List, [], ◌∷◌, ◌++◌, map, ◌==◌,
  string_eq, if◌then◌else◌, keep_if,
}
use exoscale_cloud_controlle.Cloud.Exoscale.{Instance}
use exoscale_cloud_controlle.Cloud.Kubernetes.{NodeAddress}
use exoscale_cloud_controlle.Instances.Addresses.{
  host_name, internal_ip, append_public, addresses_of,
}

-- The addresses of one kind, in order.
abbrev pub of_type : String → List NodeAddress → List String
of_type type addresses = map (λ a. a.address) (keep_if (λ a. a.type == type) addresses)

-- The public addresses of an instance.
abbrev pub public_addresses : Instance → List String
public_addresses instance =
    (elim instance.public_ip [ none ↦ [] | some a ↦ a ∷ [] ])
    ++ (if not (instance.ipv6_address == "") then instance.ipv6_address ∷ [] else [])

-- What the list has to say.
abbrev pub Reports : Instance → Option String → List NodeAddress → Type 0
Reports instance provided addresses =
    (of_type "Hostname" addresses ≡ instance.name ∷ [])
    × (of_type "ExternalIP" addresses ≡ public_addresses instance)
    × (of_type "InternalIP" addresses
        ≡ elim provided [ none ↦ public_addresses instance | some a ↦ a ∷ [] ])

-- The list, by what it depends on; the flag says whether there is a second public address.
abbrev listed : String → Option String → Bool → String → Option String → List NodeAddress
listed name v4 b v6 provided =
    let found : Bool = elim provided [ none ↦ false | some _ ↦ true ] in
    let internal : List NodeAddress = elim provided [
      | none ↦ host_name name ∷ []
      | some a ↦ host_name name ∷ internal_ip a ∷ []
    ] in
    let first : List NodeAddress = elim v4 [
      | none ↦ internal
      | some a ↦ append_public found a internal
    ] in
    if b then append_public found v6 first else first

abbrev publics : Option String → Bool → String → List String
publics v4 b v6 = (elim v4 [ none ↦ [] | some a ↦ a ∷ [] ]) ++ (if b then v6 ∷ [] else [])

listed-kinds :
    (name : String) (v4 : Option String) (b : Bool) (v6 : String) (provided : Option String)
    → (of_type "Hostname" (listed name v4 b v6 provided) ≡ name ∷ [])
      × (of_type "ExternalIP" (listed name v4 b v6 provided) ≡ publics v4 b v6)
      × (of_type "InternalIP" (listed name v4 b v6 provided)
          ≡ elim provided [ none ↦ publics v4 b v6 | some a ↦ a ∷ [] ])
unfolding string_eq
listed-kinds name none false v6 none = (refl, refl, refl)
listed-kinds name none false v6 (some a) = (refl, refl, refl)
listed-kinds name none true v6 none = (refl, refl, refl)
listed-kinds name none true v6 (some a) = (refl, refl, refl)
listed-kinds name (some x) false v6 none = (refl, refl, refl)
listed-kinds name (some x) false v6 (some a) = (refl, refl, refl)
listed-kinds name (some x) true v6 none = (refl, refl, refl)
listed-kinds name (some x) true v6 (some a) = (refl, refl, refl)

-- The list of a node's addresses has the instance's name as its only host name; its external addresses
-- are the public ones, in order; and its internal addresses are the address that the node provides,
-- if it was looked for and found, and otherwise the public ones too.
pub addresses_of-Reports :
    (instance : Instance) (provided : Option String)
    → Reports instance provided (addresses_of instance provided)
unfolding addresses_of
addresses_of-Reports instance provided =
    listed-kinds instance.name instance.public_ip (not (instance.ipv6_address == ""))
      instance.ipv6_address provided
