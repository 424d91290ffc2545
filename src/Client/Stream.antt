-- ===== src/Client/Stream.antt =====
-- The bytes that a process puts into each socket by its calls of `send_warning_to`
-- (Common/propagator_client.c).
use ikp_data_propagator.Prelude.{
  ℕ, ◌<◌, ◌≡◌, ◌≢◌, refl, ap, sym, ◌∙◌, Bool, true, false, List, [], ◌∷◌, ◌++◌, ◌==◌, ==_self,
  ==_false_of_ne, if◌then◌else◌, ◌⊎◌, inl, inr, length, take,
}
use mathlib.Core.List.{append_assoc, append-nil}
use ikp_data_propagator.Warning.{Warning}
use ikp_data_propagator.Wire.{ByteOrder, pack}
use ikp_data_propagator.Wire.Layout.{IsSendable}
use ikp_data_propagator.Wire.RoundTrip.{AllSendable, pack_all}
use ikp_data_propagator.Connections.{connection_key, Pool}

-- The pool, what was written to which socket, and the warnings for which `send_warning_to` returned
-- true, with the socket that they were written to; the first are the oldest.
pub record Wires : Type 0 where
  pub pool : Pool
  pub log : List (ℕ × List ℕ)
  pub sent : List (ℕ × Warning)

-- The bytes that were written to a socket, and the warnings that were sent over it.
unfoldable pub stream : ℕ → List (ℕ × List ℕ) → List ℕ
stream j [] = []
stream j ((s, bs) ∷ l) = (if j == s then bs else []) ++ stream j l

unfoldable pub sent_over : ℕ → List (ℕ × Warning) → List Warning
sent_over j [] = []
sent_over j ((s, w) ∷ l) = (if j == s then w ∷ [] else []) ++ sent_over j l

abbrev pub tagged : Warning → Bool → List (ℕ × List ℕ) → List (ℕ × Warning)
tagged w true ((s, bs) ∷ l) = (s, w) ∷ []
tagged w true [] = []
tagged w false l = []

pub stream-append : (j : ℕ) (a b : List (ℕ × List ℕ)) → stream j (a ++ b) ≡ stream j a ++ stream j b
unfolding stream
stream-append j [] b = refl
stream-append j ((s, bs) ∷ a) b =
    ap (λ l. (if j == s then bs else []) ++ l) (stream-append j a b)
    ∙ sym (append_assoc (if j == s then bs else []) (stream j a) (stream j b))

pub sent_over-append :
    (j : ℕ) (a b : List (ℕ × Warning)) → sent_over j (a ++ b) ≡ sent_over j a ++ sent_over j b
unfolding sent_over
sent_over-append j [] b = refl
sent_over-append j ((s, w) ∷ a) b =
    ap (λ l. (if j == s then w ∷ [] else []) ++ l) (sent_over-append j a b)
    ∙ sym (append_assoc (if j == s then w ∷ [] else []) (sent_over j a) (sent_over j b))

pub stream_self :
    (j : ℕ) (l : List (ℕ × List ℕ)) (bs : List ℕ) → stream j (l ++ (j, bs) ∷ []) ≡ stream j l ++ bs
unfolding stream
stream_self j l bs =
    stream-append j l ((j, bs) ∷ []) ∙ ap (λ t. stream j l ++ t) (rw (==_self j) (append-nil bs))

pub stream_other :
    (j s : ℕ) (l : List (ℕ × List ℕ)) (bs : List ℕ)
    → j ≢ s
    → stream j (l ++ (s, bs) ∷ []) ≡ stream j l
unfolding stream
stream_other j s l bs ne =
    stream-append j l ((s, bs) ∷ []) ∙ rw (==_false_of_ne j s ne) (append-nil (stream j l))

pub sent_over_self :
    (j : ℕ) (l : List (ℕ × Warning)) (w : Warning)
    → sent_over j (l ++ (j, w) ∷ []) ≡ sent_over j l ++ w ∷ []
unfolding sent_over
sent_over_self j l w =
    sent_over-append j l ((j, w) ∷ []) ∙ ap (λ t. sent_over j l ++ t) (rw (==_self j) refl)

pub sent_over_other :
    (j s : ℕ) (l : List (ℕ × Warning)) (w : Warning)
    → j ≢ s
    → sent_over j (l ++ (s, w) ∷ []) ≡ sent_over j l
unfolding sent_over
sent_over_other j s l w ne =
    sent_over-append j l ((s, w) ∷ []) ∙ rw (==_false_of_ne j s ne) (append-nil (sent_over j l))

module _ (order : ByteOrder) where
  pub pack_all-append :
      (ws : List Warning) (w : Warning)
      → pack_all order (ws ++ w ∷ []) ≡ pack_all order ws ++ pack order w
  pack_all-append [] w = append-nil (pack order w)
  pack_all-append (v ∷ ws) w =
      ap (λ l. pack order v ++ l) (pack_all-append ws w)
      ∙ sym (append_assoc (pack order v) (pack_all order ws) (pack order w))

  pub AllSendable-append :
      (ws : List Warning) (w : Warning) → AllSendable ws → IsSendable w → AllSendable (ws ++ w ∷ [])
  AllSendable-append [] w all ok = (ok, tt)
  AllSendable-append (v ∷ ws) w all ok = (all.0, AllSendable-append ws w all.1 ok)

  -- What is in a socket is the messages of the warnings that were sent over it.
  pub record IsWhole (log : List (ℕ × List ℕ)) (sent : List (ℕ × Warning)) (j : ℕ) : Type 0 where
    pub sendable : AllSendable (sent_over j sent)
    pub bytes : stream j log ≡ pack_all order (sent_over j sent)

  -- The same, and then a part of one more message.
  pub record IsCut (log : List (ℕ × List ℕ)) (sent : List (ℕ × Warning)) (j : ℕ) : Type 0 where
    pub sendable : AllSendable (sent_over j sent)
    pub last : Warning
    pub last_sendable : IsSendable last
    pub arrived : ℕ
    pub part : arrived < length (pack order last)
    pub bytes : stream j log ≡ pack_all order (sent_over j sent) ++ take arrived (pack order last)

  front_nil : (a b : List ℕ) → a ++ b ≡ [] → a ≡ []
  front_nil [] b e = refl
  front_nil (x ∷ a) b e = absurd (cc)

  -- A socket that nothing was written to has whole messages only.
  pub unused-IsWhole :
      (log : List (ℕ × List ℕ)) (sent : List (ℕ × Warning)) (j : ℕ)
      → stream j log ≡ []
      → IsWhole log sent j ⊎ IsCut log sent j
      → IsWhole log sent j
  unused-IsWhole log sent j e (inl h) = h
  unused-IsWhole log sent j e (inr h) = record {
    sendable = h.sendable;
    bytes = e ∙ sym (front_nil (pack_all order (sent_over j sent)) _ (sym h.bytes ∙ e));
  }

  -- What is in a socket, by its part of the log and of the warnings.
  module _ (t t' : Wires) (j : ℕ) (log : stream j t'.log ≡ stream j t.log)
      (sent : sent_over j t'.sent ≡ sent_over j t.sent) where
    pub still-IsWhole : IsWhole t.log t.sent j → IsWhole t'.log t'.sent j
    still-IsWhole h = record { sendable = rw sent h.sendable; bytes = rw (log, sent) h.bytes }

    pub still :
        IsWhole t.log t.sent j ⊎ IsCut t.log t.sent j
        → IsWhole t'.log t'.sent j ⊎ IsCut t'.log t'.sent j
    still (inl h) = inl (still-IsWhole h)
    still (inr h) = inr (record {
      sendable = rw sent h.sendable;
      last = h.last;
      last_sendable = h.last_sendable;
      arrived = h.arrived;
      part = h.part;
      bytes = rw (log, sent) h.bytes;
    })
