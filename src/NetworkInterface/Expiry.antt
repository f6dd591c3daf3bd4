-- ===== src/NetworkInterface/Expiry.antt =====
-- libsponge/network_interface.cc: what the passing of time does, and the time of requests.
use csed.Base.{
  ℕ, ◌+◌, ◌%◌, ◌^◌, ◌≤◌, ◌<◌, ◌≡◌, refl, sym, subst, ap, ◌∙◌, Bool, true, false, Option, none, some,
  List, [], ◌∷◌, ◌++◌, append-nil, append_assoc, replicate, arith, ltb, ◌==◌, if◌then◌else◌,
  u64_mod, length, Bool-cases, inl, inr,
}
use mathlib.Core.Option.{some-injective, none-ne-some}
use csed.Base.Dict.{Dict, find, put}
use csed.Ethernet.{EthernetAddress}
use csed.Datagram.{Ipv4Datagram}
use csed.Adapter.{Address}
use csed.NetworkInterface.{
  NetworkInterface, Outcome, returned, push_frame, frame_to, request_message, send_arp_request,
  after, note_request, enqueue, request_due, queue_of, send_unmapped, unmap_expired, tick,
}
use csed.NetworkInterface.Laws.{
  IsAddressed, AllWhole, request_frame, wire, send_each, send_datagram_unmapped,
  send_arp_request_lem,
}

-- Whether a mapping of the time `t` is dropped at the time `time`.
abbrev pub expired : ℕ → ℕ → Bool
expired t time = ltb ((t + 30000) % u64_mod) time

same_time : (p q : EthernetAddress × ℕ) → some p ≡ some q → p.1 ≡ q.1
same_time p q h = ap (λ (e : EthernetAddress × ℕ). e.1) (some-injective p q h)

kept :
    (time ip : ℕ) (m : Dict (EthernetAddress × ℕ)) (eth : EthernetAddress) (t : ℕ)
    → find ip m ≡ some (eth, t)
    → expired t time ≡ false
    → find ip (unmap_expired time m) ≡ some (eth, t)
unfolding unmap_expired
kept time ip [] eth t h e = absurd (none-ne-some (eth, t) h)
kept time ip ((j, (a, s)) ∷ m) eth t h e = elim (Bool-cases (ip == j)) [
  | inl here ↦
      let found : some (a, s) ≡ some (eth, t) =
        sym (ap (λ b. if b then some (a, s) else find ip m) here) ∙ h in
      let stays : expired s time ≡ false =
        ap (λ u. expired u time) (same_time (a, s) (eth, t) found) ∙ e in
      rw (stays, here) found
  | inr there ↦
      let found : find ip m ≡ some (eth, t) =
        sym (ap (λ b. if b then some (a, s) else find ip m) there) ∙ h in
      elim (Bool-cases (expired s time)) [
        | inl old ↦ rw old (kept time ip m eth t found e)
        | inr young ↦ rw (young, there) (kept time ip m eth t found e)
      ]
]

fresh :
    (time ip : ℕ) (m : Dict (EthernetAddress × ℕ)) (eth : EthernetAddress) (t : ℕ)
    → find ip (unmap_expired time m) ≡ some (eth, t)
    → expired t time ≡ false
unfolding unmap_expired
fresh time ip [] eth t h = absurd (none-ne-some (eth, t) h)
fresh time ip ((j, (a, s)) ∷ m) eth t h =
    let rest = unmap_expired time m in
    elim (Bool-cases (expired s time)) [
      | inl old ↦
          fresh time ip m eth t
            (sym (ap (λ b. find ip (if b then rest else (j, (a, s)) ∷ rest)) old) ∙ h)
      | inr young ↦
          let left : (if ip == j then some (a, s) else find ip rest) ≡ some (eth, t) =
            sym (ap (λ b. find ip (if b then rest else (j, (a, s)) ∷ rest)) young) ∙ h in
          elim (Bool-cases (ip == j)) [
            | inl here ↦
                ap (λ u. expired u time)
                  (sym (
                    same_time (a, s) (eth, t)
                      (sym (ap (λ b. if b then some (a, s) else find ip rest) here) ∙ left)))
                ∙ young
            | inr there ↦
                fresh time ip m eth t
                  (sym (ap (λ b. if b then some (a, s) else find ip rest) there) ∙ left)
          ]
    ]

-- After `tick`, where the time does not wrap around, and for a mapping whose time with 30 seconds added
-- is below 2^64: the time has passed on; the mapping is still there if it is no older than 30
-- seconds, and is left only if it is no older than that; and no frame goes out.
pub tick_expires :
    (n : NetworkInterface) (ms ip : ℕ) (eth : EthernetAddress) (t : ℕ)
    → n.time_passed + ms < u64_mod
    → t + 30000 < u64_mod
    → ((tick n ms).time_passed ≡ n.time_passed + ms)
      × (find ip n.ip2eth ≡ some (eth, t)
          → n.time_passed + ms ≤ t + 30000
          → find ip (tick n ms).ip2eth ≡ some (eth, t))
      × (find ip (tick n ms).ip2eth ≡ some (eth, t) → n.time_passed + ms ≤ t + 30000)
      × ((tick n ms).frames_out ≡ n.frames_out)
unfolding tick
tick_expires n ms ip eth t h small =
    let time = (n.time_passed + ms) % u64_mod in
    (
      omega (arith, h),
      λ e young. kept time ip n.ip2eth eth t e (ground (arith, h, small, young)),
      λ e. let left = fresh time ip n.ip2eth eth t e in ground (arith, h, small, left),
      refl,
    )

-- A request for the address was sent more than five seconds ago.
pub record IsLate (n : NetworkInterface) (ip t : ℕ) : Type 0 where
  pub unmapped : find ip n.ip2eth ≡ none
  pub asked : find ip n.not_mapped_ip_address ≡ some t
  pub late : (t + 5000) % u64_mod < n.time_passed

-- The interface after one more request and one more datagram that waits.
asked_again : NetworkInterface → ℕ → List (List ℕ) → NetworkInterface
asked_again n ip bytes = record n {
  frames_out = n.frames_out ++ (request_frame n ip ∷ []);
  not_sent_dgrams = put ip (queue_of (find ip n.not_sent_dgrams) ++ (bytes ∷ [])) n.not_sent_dgrams;
}

late_steps :
    NetworkInterface
    → ℕ
    → List (List ℕ)
    → Option ℕ
    → NetworkInterface × Outcome
    → NetworkInterface × Outcome
late_steps n ip bytes t asked = after asked (λ n'. enqueue (note_request n' ip t) ip (some bytes))

send_late :
    (n : NetworkInterface) (ip t : ℕ) (bytes : List (List ℕ))
    → IsAddressed n
    → ip < 2 ^ 32
    → IsLate n ip t
    → send_unmapped n ip (some bytes) ≡ (asked_again n ip bytes, returned)
unfolding send_unmapped request_due after enqueue note_request push_frame asked_again late_steps
send_late n ip t bytes a small l =
    let due : ltb ((t + 5000) % u64_mod) n.time_passed ≡ true = ground (arith, l.late) in
    ap
      (λ q.
        late_steps n ip bytes q (if request_due n q then send_arp_request n ip else (n, returned)))
      l.asked
    ∙ ap (λ b. late_steps n ip bytes (some t) (if b then send_arp_request n ip else (n, returned)))
        due
    ∙ ap (late_steps n ip bytes (some t)) (send_arp_request_lem n ip a small)

-- More than five seconds after a request for an address that is still not mapped, every datagram for it makes one more
-- request: the time of the request is not brought up to date. The addresses are 32-bit numbers and six
-- bytes, and the datagrams have fields that fit.
pub requests_repeat :
    (n : NetworkInterface) (a : Address) (t : ℕ) (ds : List Ipv4Datagram)
    → IsAddressed n
    → a.ip < 2 ^ 32
    → IsLate n a.ip t
    → AllWhole ds
    → ((send_each n ds a).0.frames_out
        ≡ n.frames_out ++ replicate (length ds) (request_frame n a.ip))
      × ((send_each n ds a).1 ≡ returned)
unfolding asked_again after request_message frame_to
requests_repeat n a t [] addressed small l w = (sym (append-nil n.frames_out), refl)
requests_repeat n a t (d ∷ ds) addressed small l w =
    let n' = asked_again n a.ip (wire d) in
    let (frames, ends) =
      requests_repeat n' a t ds
        (record {
          ip = addressed.ip;
          ethernet_length = addressed.ethernet_length;
          ethernet_bytes = addressed.ethernet_bytes;
        })
        small (record { unmapped = l.unmapped; asked = l.asked; late = l.late }) w.1 in
    subst
      (λ (r : NetworkInterface × Outcome).
        ((after r (λ m. send_each m ds a)).0.frames_out
          ≡ n.frames_out ++ replicate (length (d ∷ ds)) (request_frame n a.ip))
        × ((after r (λ m. send_each m ds a)).1 ≡ returned))
      (sym (
        send_datagram_unmapped n d a w.0 l.unmapped
        ∙ send_late n a.ip t (wire d) addressed small l))
      (
        frames
            ∙ append_assoc n.frames_out (request_frame n a.ip ∷ [])
                (replicate (length ds) (request_frame n a.ip)),
        ends,
      )
