-- ===== src/RelayChannel/Delivery.antt =====
-- What one end of a relayed connection writes for its scheduler, the other end's handlers get.
use share_bridge.Prelude.{
  append-nil, append_assoc, ℕ, ◌≡◌, refl, sym, ap, ◌∙◌, ◌⊎◌, Bool, true, false, List, [], ◌∷◌, ◌++◌,
  Option, none, some, Result, ok, err, lookup, nat_key,
}
use share_bridge.RelayFrame.{frame_text, frame_binary}
use share_bridge.Lane.{TrafficClass, ClassError, lane_for_class}
use share_bridge.Noise.Crypto.{Crypto, Laws}
use share_bridge.RelayChannel.State.{Channel, Told, writes, tell, Delivery, handle}
use share_bridge.RelayChannel.Wire.{write_scheduled, read_one, read_messages}
use share_bridge.RelayChannel.Exchange.{Written, written, Handles, read-Written}

abbrev pub told_frames : List (List ℕ) → List Told
told_frames [] = []
told_frames (f ∷ fs) = writes f ∷ told_frames fs

abbrev pub given : Option ℕ → List ℕ → List Delivery
given none payload = []
given (some handler) payload = record { handler = handler; payload = payload } ∷ []

abbrev pub given_class : Result ClassError ℕ → (ℕ → Option ℕ) → List ℕ → List Delivery
given_class (err e) handlers payload = []
given_class (ok lane) handlers payload = given (handlers lane) payload

abbrev pub Requests : Type 0
Requests = List (TrafficClass × ℕ × List ℕ)

-- What the handlers get for these requests.
abbrev pub deliveries : (ℕ → Option ℕ) → Requests → List Delivery
deliveries handlers [] = []
deliveries handlers ((class, kind, payload) ∷ requests) =
    given_class (lane_for_class class) handlers payload ++ deliveries handlers requests

delivered-handle :
    (o : Option ℕ) (payload : List ℕ) (ch : Channel)
    → ((handle o payload ch).delivered ≡ ch.delivered ++ given o payload)
      × ((handle o payload ch).recv ≡ ch.recv)
      × ((handle o payload ch).endpoints ≡ ch.endpoints)
unfolding handle
delivered-handle none payload ch = (sym (append-nil ch.delivered), refl, refl)
delivered-handle (some h) payload ch = (refl, refl, refl)

module _ {Priv Pub Block Gcm : Type 0} (c : Crypto Priv Pub Block Gcm) where
  -- One request after another, of a class, a kind and a payload, each written with success.
  pub data Writes : Channel → Requests → Channel → Type 0 where
    wrote_none : {ch : Channel} → Writes ch [] ch
    wrote_one :
        {ch ch1 ch2 : Channel} (class : TrafficClass) (kind : ℕ) (payload : List ℕ)
        {requests : Requests}
        → (kind ≡ frame_text) ⊎ (kind ≡ frame_binary)
        → write_scheduled c true class kind payload ch ≡ (none, ch1)
        → Writes ch1 requests ch2
        → Writes ch ((class, kind, payload) ∷ requests) ch2

  -- The frames of the requests, as the websocket is told them, and what the other end makes of them.
  pub record Transmitted (ch : Channel) (requests : Requests) (ch' : Channel) : Type 0 where
    pub frames : List (List ℕ)
    pub told : ch'.told ≡ ch.told ++ told_frames frames
    pub reads :
        (peer : Channel) (handlers : ℕ → Option ℕ)
        → peer.recv ≡ ch.send
        → Handles c peer handlers
        → ((read_messages c frames peer).delivered ≡ peer.delivered ++ deliveries handlers requests)
          × ((read_messages c frames peer).recv ≡ ch'.send)

  read_messages-one :
      (peer : Channel) {peer1 : Channel} (m : List ℕ) (ms : List (List ℕ))
      → read_one c m peer ≡ (true, peer1)
      → read_messages c (m ∷ ms) peer ≡ read_messages c ms peer1
  unfolding read_messages
  read_messages-one peer m ms e =
      ap (λ (x : Bool × Channel). elim x.0 [ true ↦ read_messages c ms x.1 | false ↦ x.1 ]) e

  transmit_one :
      Laws c
      → {ch ch1 ch2 : Channel} {class : TrafficClass} {kind : ℕ} {payload frame : List ℕ}
        {requests : Requests}
      → (kind ≡ frame_text) ⊎ (kind ≡ frame_binary)
      → Written c class kind payload ch ch1 frame
      → Transmitted ch1 requests ch2
      → Transmitted ch ((class, kind, payload) ∷ requests) ch2
  unfolding tell
  transmit_one laws {ch = ch} {ch1 = ch1} {ch2 = ch2} {class = class} {kind = kind}
        {payload = payload} {frame = frame} {requests = requests} k w t =
      record {
        frames = frame ∷ t.frames;
        told =
            t.told
            ∙ ap (λ (u : Channel). u.told ++ told_frames t.frames) w.result
            ∙ append_assoc ch.told (writes frame ∷ []) (told_frames t.frames);
        reads = λ peer handlers r h.
            let peer1 = handle (handlers w.lane) payload (record peer { recv = some w.after }) in
            let one : read_one c frame peer ≡ (true, peer1) =
              read-Written c laws class kind payload ch ch1 peer frame handlers k w r h in
            let (d, v, e) =
              delivered-handle (handlers w.lane) payload (record peer { recv = some w.after }) in
            let sent : ch1.send ≡ some w.after = ap (λ (u : Channel). u.send) w.result in
            let (more, last) =
              t.reads peer1 handlers (v ∙ sym sent)
                (λ class' lane l. ap (lookup lane) e ∙ h class' lane l) in
            let step = read_messages-one peer frame t.frames one in
            (
              ap (λ (u : Channel). u.delivered) step
                  ∙ more
                  ∙ ap (λ x. x ++ deliveries handlers requests) d
                  ∙ append_assoc peer.delivered (given (handlers w.lane) payload)
                      (deliveries handlers requests)
                  ∙ ap
                      (λ r.
                        peer.delivered
                        ++ (given_class r handlers payload ++ deliveries handlers requests))
                      (sym w.lane_of),
              ap (λ (u : Channel). u.recv) step ∙ last,
            );
      }

  -- What is written for requests, one after another and each with success, is read at the other end,
  -- if the other end's receiving state is the writer's sending state and every lane has its endpoint
  -- there: each payload goes, in order, to the handler of its class's lane, if there is one, and the
  -- two states agree again.
  pub Writes-Transmitted :
      Laws c
      → {ch ch' : Channel} {requests : Requests} → Writes ch requests ch'
      → Transmitted ch requests ch'
  unfolding read_messages
  Writes-Transmitted laws {ch = ch} wrote_none = record {
    frames = [];
    told = sym (append-nil ch.told);
    reads = λ peer handlers r h. (sym (append-nil peer.delivered), r);
  }
  Writes-Transmitted laws (wrote_one {ch = ch} {ch1 = ch1} class kind payload k e more) =
      let (frame, w) = written c class kind payload ch ch1 e in
      transmit_one laws k w (Writes-Transmitted laws more)
