-- ===== src/Pcap/Print/Tables.antt =====
-- The tables of pcap/print.c: which indices are in range, and what the labels say.
use Prim.Native.String.{String}
use c_router.Base.{
  ℕ, zero, suc, ◌≤◌, ◌<◌, ◌≡◌, ◌⊎◌, ◌↔◌, refl, List, [], ◌∷◌, Bool, true, false, Bool-cases, inl,
  inr, ◌||◌, leb, ◌==◌, Outcome, Outcome-cases, ok, fault, arith, leb→le, length, byte_at,
  if◌then◌else◌,
}
use c_router.Frame.{u8-ok}
use c_router.Router.Fields.{net16_at, u16_net-ok}
use c_router.Text.{codes, concat, dec, entry}
use c_router.Pcap.Print.{label}
use c_router.Pcap.Messages.{
  icmp_type, print_echo, print_icmp, icmp6_kind, Icmp6Kind, unreachable, too_big, time_exceeded,
  parameter_problem, echo_request, echo_reply, undefined,
}

-- The types of RFC 4443.
abbrev pub rfc_kind : ℕ → Icmp6Kind
rfc_kind type =
    if type == 1
    then unreachable
    else if type == 2
    then too_big
    else if type == 3
    then time_exceeded
    else if type == 4
    then parameter_problem
    else if type == 128
    then echo_request
    else if type == 129
    then echo_reply
    else undefined

-- `PrintIcmp6` prints the label of the type in RFC 4443 exactly for the types 1 to 4, 128, and
-- those above 129: it calls an echo reply (129) undefined, and the types 5 to 127 echo requests.
pub icmp6_kind_iff :
    (type : ℕ)
    → (icmp6_kind type ≡ rfc_kind type) ↔ (((1 ≤ type) × (type ≤ 4)) ⊎ (type ≡ 128) ⊎ (130 ≤ type))
unfolding icmp6_kind
icmp6_kind_iff type = ground arith

entry-ok :
    (table : List String) (i : ℕ) → i < length table → (text : List ℕ) × (entry table i ≡ ok text)
unfolding entry
entry-ok [] i h = absurd (omega arith)
entry-ok (s ∷ table) zero h = (codes s, refl)
entry-ok (s ∷ table) (suc i) h = entry-ok table i (omega arith)

entry-fault : (table : List String) (i : ℕ) → length table ≤ i → entry table i ≡ fault
unfolding entry
entry-fault [] i h = refl
entry-fault (s ∷ table) zero h = absurd (omega arith)
entry-fault (s ∷ table) (suc i) h = entry-fault table i (omega arith)

pub label-ok :
    (table : List String) (last : ℕ) (other : String) (i : ℕ)
    → last < length table
    → (text : List ℕ) × (label table last other i ≡ ok text)
unfolding label
label-ok table last other i h = elim (Bool-cases (leb i last)) [
  | inl within ↦
      let (text, e) = entry-ok table i (omega (arith, leb→le i last within)) in (text, rw within e)
  | inr above ↦ (codes other, rw above refl)
]

-- The table of ICMP types is looked up out of its range exactly for the type 18.
pub label-icmp_type-fault :
    (other : String) (i : ℕ) → (label icmp_type 18 other i ≡ fault) ↔ (i ≡ 18)
unfolding label
label-icmp_type-fault other i = (forth, λ e. rw e (entry-fault icmp_type 18 (omega arith)))
  where
    within_range : i ≤ 18 → entry icmp_type i ≡ fault → i ≡ 18
    within_range within e = elim (Bool-cases (i == 18)) [
      | inl same ↦ ground (arith, same)
      | inr differs ↦
          let (text, is_ok) = entry-ok icmp_type i (ground (arith, differs)) in cc (e, is_ok)
    ]

    forth : label icmp_type 18 other i ≡ fault → i ≡ 18
    forth h = elim (Bool-cases (leb i 18)) [
      | inr above ↦
          let e : ◌≡◌ {A = Outcome (List ℕ)} (ok (codes other)) fault = rw above at h in cc
      | inl within ↦
          let e : entry icmp_type i ≡ fault = rw within at h in within_range (leb→le i 18 within) e
    ]

pub print_echo-ok :
    (echo : Bool) (id_name seq_name : String) (icmp : List ℕ)
    → 8 ≤ length icmp
    → (text : List ℕ) × (print_echo echo id_name seq_name icmp ≡ ok text)
unfolding print_echo
print_echo-ok false id_name seq_name icmp long = ([], refl)
print_echo-ok true id_name seq_name icmp long = (
  concat (
      codes id_name
      ∷ dec (net16_at icmp 4)
      ∷ codes ", "
      ∷ codes seq_name
      ∷ dec (net16_at icmp 6)
      ∷ codes ", "
      ∷ []),
  rw (u16_net-ok icmp 4 (omega arith), u16_net-ok icmp 6 (omega arith)),
)

-- `PrintIcmp` reads out of range, past the end of its table, exactly for the type 18 of a message of 8 bytes or more.
pub print_icmp-fault :
    (icmp : List ℕ) → 8 ≤ length icmp → (print_icmp icmp ≡ fault) ↔ (byte_at icmp 0 ≡ 18)
unfolding print_icmp
print_icmp-fault icmp long = (forth, back)
  where
    type : ℕ
    type = byte_at icmp 0

    forth : print_icmp icmp ≡ fault → type ≡ 18
    forth h = elim (Outcome-cases (label icmp_type 18 "undifined" type)) [
      | inl out ↦ (label-icmp_type-fault "undifined" type).0 out
      | inr (text, within) ↦
          let (echo, printed) =
            print_echo-ok (type == 0 || type == 8) "icmp_id=" "icmp_seq=" icmp long in
          let e =
            rw
              (
                u8-ok icmp 0 (omega arith),
                within,
                u8-ok icmp 1 (omega arith),
                u16_net-ok icmp 2 (omega arith),
                printed,
              )
              at h in
          cc e
    ]

    back : type ≡ 18 → print_icmp icmp ≡ fault
    back is = rw (u8-ok icmp 0 (omega arith), is, (label-icmp_type-fault "undifined" 18).1 refl)
