-- ===== src/LoadBalancer/Build/Names.antt =====
-- The names of an NLB's services (exoscale/loadbalancer.go, lines 846-853).
use exoscale_cloud_controlle.Base.{
  ℕ, String, ◌<>◌, ◌≡◌, refl, sym, ◌∙◌, ◌≢◌, ap, true, false, not, ◌==◌, string_eq, if◌then◌else◌,
  arith, pos, Bool-cases, inl, inr, ◌⊎◌,
}
use exoscale_cloud_controlle.Base.Text.{to_lower, is_empty}
use exoscale_cloud_controlle.Base.Decimal.{show_nat, show_int, read_digits, read_digits-show_nat}
use exoscale_cloud_controlle.Cloud.Kubernetes.{ServicePort}
use exoscale_cloud_controlle.LoadBalancer.Build.{service_name, is_supported}
use text.Mathlib.TextLemmas.{append_cancel_left, append_assoc, append-nil}

-- What follows the port in a name.
abbrev suffix_of : String → String
suffix_of protocol = if not (protocol == "TCP") then "-" <> to_lower protocol else ""

suffix_of_tcp : suffix_of "TCP" ≡ ""
unfolding string_eq
suffix_of_tcp = refl

suffix_of_udp : suffix_of "UDP" ≡ "-udp"
unfolding string_eq to_lower
suffix_of_udp = refl

show_int-pos : (n : ℕ) → show_int (pos n) ≡ show_nat n
unfolding show_int
show_int-pos n = refl

service_name-suffix :
    (uid : String) (p : ServicePort) (n : ℕ)
    → p.port ≡ pos n
    → service_name uid p ≡ uid <> ("-" <> (show_nat n <> suffix_of p.protocol))
unfolding service_name
service_name-suffix uid p n h = elim (Bool-cases (p.protocol == "TCP")) [
  | inl e ↦ rw (h, e, show_int-pos n, append-nil (show_nat n)) refl
  | inr e ↦
      rw
        (
          h,
          e,
          show_int-pos n,
          append_assoc uid ("-" <> show_nat n) ("-" <> to_lower p.protocol),
          append_assoc "-" (show_nat n) ("-" <> to_lower p.protocol),
        )
        refl
]

pub tcp_or_udp :
    (p : ServicePort) → is_supported p ≡ true → (p.protocol ≡ "TCP") ⊎ (p.protocol ≡ "UDP")
unfolding is_supported
tcp_or_udp p h = ground arith

-- The digits of the port end where the suffix begins.
read-suffix :
    (n : ℕ) (p : ServicePort)
    → is_supported p ≡ true
    → read_digits 0 (show_nat n <> suffix_of p.protocol) ≡ (n, suffix_of p.protocol)
unfolding read_digits
read-suffix n p h = elim (tcp_or_udp p h) [
  | inl e ↦ rw (e, suffix_of_tcp) (read_digits-show_nat n "")
  | inr e ↦ rw (e, suffix_of_udp) (read_digits-show_nat n "-udp")
]

suffixes_differ : ◌≢◌ {A = String} "" "-udp"
suffixes_differ e = let f : true ≡ false = ap is_empty e in cc

suffix_of_injective :
    (p q : ServicePort)
    → is_supported p ≡ true
    → is_supported q ≡ true
    → suffix_of p.protocol ≡ suffix_of q.protocol
    → p.protocol ≡ q.protocol
suffix_of_injective p q h k e = elim (tcp_or_udp p h) [
  | inl f ↦ elim (tcp_or_udp q k) [
    | inl g ↦ f ∙ sym g
    | inr g ↦ absurd (
        suffixes_differ
          (sym suffix_of_tcp ∙ ap suffix_of (sym f) ∙ e ∙ ap suffix_of g ∙ suffix_of_udp))
  ]
  | inr f ↦ elim (tcp_or_udp q k) [
    | inl g ↦ absurd (
        suffixes_differ
          (sym suffix_of_tcp ∙ ap suffix_of (sym g) ∙ sym e ∙ ap suffix_of f ∙ suffix_of_udp))
    | inr g ↦ f ∙ sym g
  ]
]

-- Two supported ports, with port numbers that are not negative, get the same service name under the
-- same UID only if they have the same port number and the same protocol.
pub service_name_injective :
    (uid : String) (p q : ServicePort) (m n : ℕ)
    → p.port ≡ pos m
    → q.port ≡ pos n
    → is_supported p ≡ true
    → is_supported q ≡ true
    → service_name uid p ≡ service_name uid q
    → (m ≡ n) × (p.protocol ≡ q.protocol)
service_name_injective uid p q m n h k i j e =
    let f =
      append_cancel_left uid _ _
        (sym (service_name-suffix uid p m h) ∙ e ∙ service_name-suffix uid q n k) in
    let g = append_cancel_left "-" _ _ f in
    let r = sym (read-suffix m p i) ∙ ap (read_digits 0) g ∙ read-suffix n q j in
    (ap (λ x. x.0) r, suffix_of_injective p q i j (ap (λ x. x.1) r))
