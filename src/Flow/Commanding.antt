-- ===== src/Flow/Commanding.antt =====
-- The commands of a client, from its sendMessage to nl_recv_msg.
use hut_karish.Prelude.{
  ℕ, ◌<◌, ◌≡◌, refl, ap, sym, ◌∙◌, Bool, true, false, List, [], ◌∷◌, ◌++◌, Option, none, some,
  ◌>>=◌, Bool-cases, not, ◌&&◌, inl, inr, length, arith, if◌then◌else◌,
}
use hut_karish.Prelude.Int.{is_negative}
use hut_karish.Packet.{max_payload}
use hut_karish.Kernel.State.{Env, Kernel}
use hut_karish.Kernel.Clients.{Client, subscribe_of, unsubscribe_of}
use hut_karish.Kernel.Commands.{nl_recv_msg}
use hut_karish.Kernel.Stop.{says}
use hut_karish.Kernel.Run.{Event, command, run}
use hut_karish.NetLink.Socket.{NetLinkClient}
use hut_karish.NetLink.Text.{IsText}
use hut_karish.NetLink.Send.{
  Datagram, send_message, send_message-returned, datagram_of, user_msg, user_msg_roundtrip,
}
use hut_karish.Flow.Session.{session, run-append}

-- What the kernel module does with a message that was sent, if one was.
abbrev pub delivered : Env → Option Datagram → Kernel → Option Kernel
delivered e none k = some k
delivered e (some dg) k = nl_recv_msg e (some (user_msg dg)) k

-- The life of a client with the module: its subscription is sent, things happen, and its
-- unsubscription is sent, each with what the system answers; `main` ends at a failure.
unfoldable pub life :
    Env
    → NetLinkClient
    → Client
    → ℕ
    → (first last : Bool × Bool) → List Event
    → Kernel
    → Option Kernel
unfolding run
life e nc c pid first last evs k =
    let subscribing = send_message nc first.0 first.1 pid (subscribe_of c) in
    let unsubscribing = send_message nc last.0 last.1 pid (unsubscribe_of c) in
    delivered e subscribing.message k >>= λ k'.
    if subscribing.returned then run e evs k' >>= delivered e unsubscribing.message else some k'

-- The module reads the command that is sent, under the process id of the sender.
says_read :
    (pid : ℕ) (text : List ℕ)
    → IsText text
    → length text < max_payload
    → some (user_msg (datagram_of pid text)) ≡ says pid text
says_read pid text t short = ap some (user_msg_roundtrip pid text t short)

subscription_read :
    (c : Client) (pid : ℕ)
    → some (user_msg (datagram_of pid (subscribe_of c))) ≡ says pid (subscribe_of c)
subscription_read Client.daemon pid = says_read pid _ (omega arith) (omega arith)
subscription_read Client.packet_hunter pid = says_read pid _ (omega arith) (omega arith)

unsubscription_read :
    (c : Client) (pid : ℕ)
    → some (user_msg (datagram_of pid (unsubscribe_of c))) ≡ says pid (unsubscribe_of c)
unsubscription_read Client.daemon pid = says_read pid _ (omega arith) (omega arith)
unsubscription_read Client.packet_hunter pid = says_read pid _ (omega arith) (omega arith)

abbrev pub works : NetLinkClient → Bool × Bool → Bool
works nc b = not (is_negative nc.sock_fd) && (b.0 && b.1)

-- What the module makes of a text, if it is sent.
delivered_if :
    (e : Env) (nc : NetLinkClient) (b : Bool × Bool) (pid : ℕ) (text : List ℕ)
    → some (user_msg (datagram_of pid text)) ≡ says pid text
    → delivered e (send_message nc b.0 b.1 pid text).message
      ≡ (if works nc b then nl_recv_msg e (says pid text) else λ k. some k)
delivered_if e nc b pid text read =
    let (returned, message, freed) = send_message-returned nc b.0 b.1 pid text in
    ap (delivered e) (message ∙ ap (λ x. if x then some (datagram_of pid text) else none) returned)
    ∙ chosen (works nc b)
  where
    chosen :
        (x : Bool)
        → delivered e (if x then some (datagram_of pid text) else none)
          ≡ (if x then nl_recv_msg e (says pid text) else λ k. some k)
    chosen true = ap (nl_recv_msg e) read
    chosen false = refl

bind_some : (o : Option Kernel) → (o >>= λ k. some k) ≡ o
bind_some none = refl
bind_some (some k) = refl

-- One more command at the end.
one_more :
    (e : Env) (sender : ℕ) (text : List ℕ) (evs : List Event) (o : Option Kernel)
    → (o >>= λ k. run e evs k >>= nl_recv_msg e (says sender text))
      ≡ (o >>= run e (evs ++ command (says sender text) ∷ []))
unfolding run
one_more e sender text evs none = refl
one_more e sender text evs (some k) =
    last (run e evs k) ∙ sym (run-append e evs (command (says sender text) ∷ []) k)
  where
    last :
        (o : Option Kernel)
        → (o >>= nl_recv_msg e (says sender text)) ≡ (o >>= run e (command (says sender text) ∷ []))
    last none = refl
    last (some k') = sym (bind_some (nl_recv_msg e (says sender text) k'))

no_more :
    (e : Env) (evs : List Event) (o : Option Kernel)
    → (o >>= λ k. run e evs k >>= λ k'. some k') ≡ (o >>= run e evs)
no_more e evs none = refl
no_more e evs (some k) = bind_some (run e evs k)

-- A client with the module, whatever the system answers it: if the subscription cannot be sent,
-- nothing happens in the module; if it is sent and the unsubscription cannot be, the module works on the
-- subscription under the process id of the client and on what comes after it; and if both are sent, what
-- the module does is a session of the client, from its subscription to its unsubscription, under its
-- process id.
pub life-session :
    (e : Env) (nc : NetLinkClient) (c : Client) (pid : ℕ) (first last : Bool × Bool)
    (evs : List Event) (k : Kernel)
    → life e nc c pid first last evs k ≡ (
        if works nc first
        then run e
            (if works nc last
              then session c pid pid evs
              else command (says pid (subscribe_of c)) ∷ evs)
            k
        else some k)
unfolding life run
life-session e nc c pid first last evs k =
    let subscribes = (send_message-returned nc first.0 first.1 pid (subscribe_of c)).0 in
    let first_read = delivered_if e nc first pid (subscribe_of c) (subscription_read c pid) in
    let last_read = delivered_if e nc last pid (unsubscribe_of c) (unsubscription_read c pid) in
    elim (Bool-cases (works nc first)) [
      | inr f ↦ rw (subscribes, first_read, f) refl
      | inl f ↦ elim (Bool-cases (works nc last)) [
        | inl g ↦
            rw (subscribes, first_read, last_read, f, g)
              (one_more e pid (unsubscribe_of c) evs (nl_recv_msg e (says pid (subscribe_of c)) k))
        | inr g ↦
            rw (subscribes, first_read, last_read, f, g)
              (no_more e evs (nl_recv_msg e (says pid (subscribe_of c)) k))
      ]
    ]
