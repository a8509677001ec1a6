-- ===== src/Agent/Validation.antt =====
-- What the agent does with one certificate signing request
-- (exoscale/sks_agent_runner_node_csr_validation.go, lines 19-35 and 81-207). The certificates API,
-- PEM and X.509 are parameters; the time of the approval is left out.
use exoscale_cloud_controlle.Base.{
  String, Bool, true, false, not, Option, none, some, List, [], ◌∷◌, ◌++◌, ◌==◌, string_eq,
  contains, if◌then◌else◌, Result, ok, err, Action, Error, errorf, ◌>>=◌, pure, nat_eq,
}
use exoscale_cloud_controlle.Base.Text.{equal_fold}
use exoscale_cloud_controlle.Cloud.Exoscale.{Instance}
use exoscale_cloud_controlle.Instances.Addresses.{has_private_network}
use exoscale_cloud_controlle.Instances.Legacy.{provided_address}
use exoscale_cloud_controlle.Instances.Provider.{Provider}

pub record Condition : Type 0 where
  pub type : String
  pub status : String
  pub reason : String
  pub message : String

-- `CertificateSigningRequest`
pub record Csr : Type 0 where
  pub name : String
  pub groups : List String
  pub request : String
  pub conditions : List Condition

-- The part of an `x509.CertificateRequest` that is read; addresses are texts.
pub record ParsedCsr : Type 0 where
  pub dns_names : List String
  pub ip_addresses : List String

pub record PemBlock : Type 0 where
  pub type : String
  pub bytes : String

pub record Certificates (W : Type 0) : Type 0 where
  pub pem_decode : String → Option PemBlock
  pub parse_certificate_request : String → Result ParsedCsr
  pub update_approval : Csr → Action W (Unit {0})

abbrev pub required_groups : List String
required_groups = "system:authenticated" ∷ "system:nodes" ∷ []

abbrev pub approval : Condition
approval = record {
  type = "Approved";
  status = "True";
  reason = "ExoscaleCloudControllerApproved";
  message = "This CSR was approved by the Exoscale Cloud Controller Manager";
}

-- `len(csr.Status.Conditions) > 0`
unfoldable pub is_decided : Csr → Bool
is_decided csr = elim csr.conditions [ [] ↦ false | _ ∷ _ ↦ true ]

-- The loop of `hasRequiredGroups`.
unfoldable pub has_groups : List String → List String → Bool
has_groups [] actual = true
has_groups (expected ∷ more) actual =
    if contains actual expected then has_groups more actual else false

-- `hasRequiredGroups`
unfoldable pub has_required_groups : Csr → Bool
has_required_groups csr = has_groups required_groups csr.groups

-- The loop over the addresses of the request.
unfoldable pub all_known : List String → List String → Bool
all_known addresses [] = true
all_known addresses (ip ∷ ips) = if contains addresses ip then all_known addresses ips else false

-- How a request ends.
pub data Verdict : Type 0 where
  -- already approved or denied, or not a node's
  ignored : Verdict
  -- logged, and left to be looked at again
  rejected : Error → Verdict
  approved : Verdict

module _ {W : Type 0} (p : Provider W) (c : Certificates W) where
  -- `parseCSR`
  unfoldable pub parse_csr : String → Result ParsedCsr
  parse_csr pem = elim (c.pem_decode pem) [
    | none ↦ err (errorf "PEM block type must be CERTIFICATE REQUEST" [])
    | some block ↦
        if not (block.type == "CERTIFICATE REQUEST")
        then err (errorf "PEM block type must be CERTIFICATE REQUEST" [])
        else c.parse_certificate_request block.bytes
  ]

  -- `nodeAddrs`
  unfoldable pub node_addresses : Instance → Action W (List String)
  node_addresses instance = do
    provided ← provided_address p instance.name (has_private_network instance)
    let v4 : List String = elim instance.public_ip [ none ↦ [] | some a ↦ a ∷ [] ]
    let v6 : List String =
        if not (instance.ipv6_address == "") then instance.ipv6_address ∷ [] else []
    let own : List String = elim provided [ none ↦ [] | some a ↦ a ∷ [] ]
    pure (v4 ++ (v6 ++ own))

  -- The loop over the instances. Each instance of the name sets the flag anew.
  unfoldable pub match_instances : String → List String → Bool → List Instance → Action W Bool
  match_instances dns ips ok_so_far [] = pure ok_so_far
  match_instances dns ips ok_so_far (instance ∷ instances) = elim (equal_fold instance.name dns) [
    | false ↦ match_instances dns ips ok_so_far instances
    | true ↦ node_addresses instance >>= λ addresses.
        match_instances dns ips (all_known addresses ips) instances
  ]

  -- The last step, which may fail at the API.
  unfoldable pub approve : Csr → W → Verdict × W
  approve csr w =
      let (r, w') =
        c.update_approval (record csr { conditions = csr.conditions ++ (approval ∷ []) }) w in
      elim r [ ok _ ↦ (approved, w') | err e ↦ (rejected e, w') ]

  abbrev pub no_instance : String → Error
  no_instance name = errorf "sks-agent: CSR %s doesn't match any Compute instance" (name ∷ [])

  -- With the one DNS name of the request.
  unfoldable pub check_instances : Csr → ParsedCsr → String → W → Verdict × W
  check_instances csr parsed dns w =
      let (r, w') =
        (p.client.list_instances >>= λ instances.
        match_instances dns parsed.ip_addresses false instances)
          w in
      elim r [
        | err e ↦ (rejected e, w')
        | ok found ↦ elim found [
          | false ↦ (rejected (no_instance csr.name), w')
          | true ↦ approve csr w'
        ]
      ]

  abbrev pub dns_count : Error
  dns_count =
      errorf "sks-agent: expected 1 certificate Subject Alternate Name DNS Name value, got %d" []

  -- `len(parsedCSR.DNSNames) != 1`
  unfoldable pub check_names : Csr → ParsedCsr → List String → W → Verdict × W
  check_names csr parsed (dns ∷ []) w = check_instances csr parsed dns w
  check_names csr parsed _ w = (rejected dns_count, w)

  unfoldable pub check_parsed : Csr → Result ParsedCsr → W → Verdict × W
  check_parsed csr (err e) w = (rejected e, w)
  check_parsed csr (ok parsed) w = check_names csr parsed parsed.dns_names w

  -- The body of the loop for an event's request.
  unfoldable pub handle_csr : Csr → W → Verdict × W
  handle_csr csr w =
      if is_decided csr
      then (ignored, w)
      else if not (has_required_groups csr)
      then (ignored, w)
      else check_parsed csr (parse_csr csr.request) w
