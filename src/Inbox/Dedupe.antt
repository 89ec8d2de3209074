-- ===== src/Inbox/Dedupe.antt =====
-- Deduplication: at most one event is stored for each identity.
use cap_nodejs.Prelude.{
  ℕ, String, true, false, none, some, ◌≡◌, refl, sym, subst, ◌≢◌, ◌⊎◌, inl, inr, str_eq, eq_iff,
  arith, if◌then◌else◌, Bool-cases, Option-cases,
}
use cap_nodejs.JsValue.{Thrown}
use cap_nodejs.JsMap.{get, set, update}
use cap_nodejs.JsMap.Laws.{get-set, get-update}
use cap_nodejs.Model.{ReceivedEvent, MarkReceivedFailedOptions}
use cap_nodejs.Inbox.{
  Inbox, empty, dedupe_identity, try_save_received, mark_processed, mark_received_failed,
  requeue_received, is_requeueable, processed_by, failed_once, requeued_at,
}

-- The two maps agree: an identity leads to the id of a stored event with that identity, and a stored
-- event's identity leads back to its id, which is no empty text.
pub record IsInbox (b : Inbox) : Type 0 where
  pub leads :
      (k id : String)
      → get k b.dedupe ≡ some id
      → (e : ReceivedEvent) × (get id b.store ≡ some e) × (dedupe_identity e ≡ k)
  pub known :
      (id : String) (e : ReceivedEvent)
      → get id b.store ≡ some e
      → get (dedupe_identity e) b.dedupe ≡ some id
  pub named : (id : String) (e : ReceivedEvent) → get id b.store ≡ some e → id ≢ ""

pub empty-IsInbox : IsInbox empty
empty-IsInbox = record {
  leads = λ k id h. absurd (cc h);
  known = λ id e h. absurd (cc h);
  named = λ id e h. absurd (cc h);
}

-- In an inbox whose two maps agree, the same identity is never stored a second time: if the identity of
-- the event is known, nothing is written and the caller is told the id and the event stored before;
-- otherwise the event, whose id is no empty text, is stored and its identity is known from then on.
pub try_save_received_lem :
    (e : ReceivedEvent) (b : Inbox)
    → IsInbox b
    → e.id ≢ ""
    → let (r, b') = try_save_received e b in
      ((r.inserted ≡ false)
        × (b' ≡ b)
        × (get (dedupe_identity e) b.dedupe ≡ some r.id)
        × (get r.id b.store ≡ r.event)
        × (r.event ≢ none))
      ⊎ ((r.inserted ≡ true)
          × (get (dedupe_identity e) b.dedupe ≡ none)
          × (r.event ≡ some e)
          × (get e.id b'.store ≡ some e)
          × (get (dedupe_identity e) b'.dedupe ≡ some e.id))
unfolding try_save_received
try_save_received_lem e b h given = elim (Option-cases (get (dedupe_identity e) b.dedupe)) [
  | inl fresh ↦ inr (
    ground arith,
    fresh,
    ground arith,
    ground (arith, get-set e.id e.id e b.store, eq_iff e.id e.id),
    ground (
      arith,
      get-set (dedupe_identity e) (dedupe_identity e) e.id b.dedupe,
      eq_iff (dedupe_identity e) (dedupe_identity e),
    ),
  )
  | inr (id, seen) ↦
      let (w, there, same) = h.leads (dedupe_identity e) id seen in
      let full = h.named id w there in
      inl (
        ground (arith, eq_iff id "", full),
        ground (arith, eq_iff id "", full),
        ground (arith, eq_iff id "", full),
        ground (arith, eq_iff id "", full),
        ground (arith, eq_iff id "", full),
      )
]

-- Writes to one event that keep its identity keep the two maps in agreement.
update-IsInbox :
    (k : String) (f : ReceivedEvent → ReceivedEvent) (b : Inbox)
    → ((e : ReceivedEvent) → dedupe_identity (f e) ≡ dedupe_identity e)
    → IsInbox b
    → IsInbox (record b { store = update k f b.store })
update-IsInbox k f b same h = record {
  leads = λ i id led. leads i id led;
  known = λ id e found. known id e found;
  named = λ id e found. named id e found;
}
  where
    leads :
        (i id : String)
        → get i b.dedupe ≡ some id
        → (e : ReceivedEvent) × (get id (update k f b.store) ≡ some e) × (dedupe_identity e ≡ i)
    leads i id led =
        let (e, there, of_e) = h.leads i id led in
        (
          if str_eq k id then f e else e,
          ground (arith, get-update k id f b.store),
          ground (arith, same e),
        )

    origin :
        (id : String) (e : ReceivedEvent)
        → get id (update k f b.store) ≡ some e
        → (w : ReceivedEvent) × (get id b.store ≡ some w) × (dedupe_identity e ≡ dedupe_identity w)
    origin id e found = elim (Option-cases (get id b.store)) [
      | inl missing ↦ absurd (ground (arith, get-update k id f b.store))
      | inr (w, there) ↦ (w, there, ground (arith, get-update k id f b.store, same w))
    ]

    known :
        (id : String) (e : ReceivedEvent)
        → get id (update k f b.store) ≡ some e
        → get (dedupe_identity e) b.dedupe ≡ some id
    known id e found = let (w, there, alike) = origin id e found in rw (alike) (h.known id w there)

    named : (id : String) (e : ReceivedEvent) → get id (update k f b.store) ≡ some e → id ≢ ""
    named id e found = let (w, there, alike) = origin id e found in h.named id w there

add-IsInbox :
    (e : ReceivedEvent) (b : Inbox)
    → e.id ≢ ""
    → get e.id b.store ≡ none
    → get (dedupe_identity e) b.dedupe ≡ none
    → IsInbox b
    → IsInbox
        (record { store = set e.id e b.store; dedupe = set (dedupe_identity e) e.id b.dedupe })
add-IsInbox e b given fresh unknown h = record {
  leads = λ i id led. elim (Bool-cases (str_eq (dedupe_identity e) i)) [
    | inl same ↦ (
      e,
      ground (
        arith,
        get-set (dedupe_identity e) i e.id b.dedupe,
        get-set e.id id e b.store,
        eq_iff e.id id,
      ),
      (eq_iff (dedupe_identity e) i).0 same,
    )
    | inr differs ↦
        let (w, there, of_w) =
          h.leads i id (ground (arith, get-set (dedupe_identity e) i e.id b.dedupe)) in
        (w, ground (arith, get-set e.id id e b.store, eq_iff e.id id), of_w)
  ];
  known = λ id w found. elim (Bool-cases (str_eq e.id id)) [
    | inl same ↦ ground (
      arith,
      get-set e.id id e b.store,
      get-set (dedupe_identity e) (dedupe_identity w) e.id b.dedupe,
      eq_iff e.id id,
      eq_iff (dedupe_identity e) (dedupe_identity w),
    )
    | inr differs ↦ ground (
      arith,
      h.known id w (ground (arith, get-set e.id id e b.store)),
      get-set (dedupe_identity e) (dedupe_identity w) e.id b.dedupe,
      eq_iff (dedupe_identity e) (dedupe_identity w),
    )
  ];
  named = λ id w found. elim (Bool-cases (str_eq e.id id)) [
    | inl same ↦ subst (λ k. k ≢ "") ((eq_iff e.id id).0 same) given
    | inr differs ↦ h.named id w (ground (arith, get-set e.id id e b.store))
  ];
}

try_save_received-IsInbox :
    (e : ReceivedEvent) (b : Inbox)
    → e.id ≢ ""
    → get e.id b.store ≡ none
    → IsInbox b
    → IsInbox (try_save_received e b).1
unfolding try_save_received
try_save_received-IsInbox e b given fresh h =
    elim (Option-cases (get (dedupe_identity e) b.dedupe)) [
      | inl unknown ↦ rw (unknown, try_save_received) (add-IsInbox e b given fresh unknown h)
      | inr (id, seen) ↦
          let (w, there, same) = h.leads (dedupe_identity e) id seen in
          let kept : (try_save_received e b).1 ≡ b =
            ground (arith, eq_iff id "", h.named id w there) in
          subst IsInbox (sym kept) h
    ]

-- A call that writes to the inbox; a saved event has a new id that is no empty text.
pub data Step : Inbox → Inbox → Type 0 where
  save :
      (e : ReceivedEvent) (b : Inbox)
      → e.id ≢ ""
      → get e.id b.store ≡ none
      → Step b (try_save_received e b).1
  process : (id : String) (at : ℕ) (b : Inbox) → Step b (mark_processed id at b)
  fail :
      (id : String) (err : Thrown) (o : MarkReceivedFailedOptions) (b : Inbox)
      → Step b (mark_received_failed id err o b)
  requeue : (id : String) (now : ℕ) (b : Inbox) → Step b (requeue_received id now b).1

pub data Reach (b : Inbox) : Inbox → Type 0 where
  here : Reach b b
  next : {c d : Inbox} → Reach b c → Step c d → Reach b d

requeue-IsInbox :
    (id : String) (now : ℕ) (b : Inbox) → IsInbox b → IsInbox (requeue_received id now b).1
unfolding requeue_received dedupe_identity
requeue-IsInbox id now b h =
    let kept = update-IsInbox id (requeued_at now) b (λ e. refl) h in
    elim (Option-cases (get id b.store)) [
      | inl missing ↦ rw (missing, requeue_received) h
      | inr (e, found) ↦ elim (Bool-cases (is_requeueable e.status)) [
        | inl fits ↦ rw (found, requeue_received, fits) kept
        | inr refused ↦ rw (found, requeue_received, refused) h
      ]
    ]

pub Step-IsInbox : {b c : Inbox} → Step b c → IsInbox b → IsInbox c
unfolding mark_processed mark_received_failed dedupe_identity
Step-IsInbox (save e b given fresh) h = try_save_received-IsInbox e b given fresh h
Step-IsInbox (process id at b) h = update-IsInbox id (processed_by at) b (λ e. refl) h
Step-IsInbox (fail id err o b) h = update-IsInbox id (failed_once err o) b (λ e. refl) h
Step-IsInbox (requeue id now b) h = requeue-IsInbox id now b h

pub Reach-IsInbox : {b c : Inbox} → Reach b c → IsInbox b → IsInbox c
Reach-IsInbox here h = h
Reach-IsInbox (next r st) h = Step-IsInbox st (Reach-IsInbox r h)
