-- ===== src/NetLink/Send.antt =====
-- NetLinkClient.cpp: sendMessage, and what the kernel module reads of the message.
use hut_karish.Prelude.{
  ℕ, zero, suc, ◌+◌, ◌-◌, ◌*◌, ◌/◌, ◌<◌, ◌≡◌, refl, ap, ◌∙◌, Bool, true, false, ◌&&◌, not, List, [],
  ◌∷◌, ◌++◌, append_assoc, Option, none, some, arith, if◌then◌else◌, length, take, replicate,
}
use hut_karish.Prelude.Int.{is_negative}
use hut_karish.Packet.{max_payload}
use hut_karish.Kernel.Commands.{UserMsg}
use hut_karish.NetLink.Socket.{NetLinkClient}
use hut_karish.NetLink.Text.{
  c_string, strncpy, IsText, c_string-IsText, IsText-take, c_string-append, c_string_of_text,
  take_all,
}

-- NLMSG_HDRLEN, and NLMSG_SPACE: a payload with its header, rounded up to four bytes.
abbrev pub nlmsg_hdrlen : ℕ
nlmsg_hdrlen = 16

abbrev pub nlmsg_space : ℕ → ℕ
nlmsg_space n = (n + nlmsg_hdrlen + 3) / 4 * 4

-- The message that is handed to sendmsg.
pub record Datagram : Type 0 where
  pub nlmsg_len : ℕ
  pub nlmsg_flags : ℕ
  pub nlmsg_pid : ℕ
  pub payload : List ℕ

-- The payload: memory full of NULs, the text copied in, and a NUL in the last place.
unfoldable pub payload_of : List ℕ → List ℕ
unfolding strncpy
payload_of msg = strncpy (max_payload - 1) msg ++ 0 ∷ []

unfoldable pub datagram_of : ℕ → List ℕ → Datagram
unfolding payload_of
datagram_of getpid msg = record {
  nlmsg_len = nlmsg_space max_payload;
  nlmsg_flags = 0;
  nlmsg_pid = getpid;
  payload = payload_of msg;
}

-- The answer, the message if it was sent, and how many buffers are allocated and not freed.
pub record Sending : Type 0 where
  pub returned : Bool
  pub message : Option Datagram
  pub buffers : ℕ

-- `allocates` and `sends` are what malloc and sendmsg answer.
unfoldable pub send_message : NetLinkClient → (allocates sends : Bool) → ℕ → List ℕ → Sending
send_message c allocates sends getpid msg =
    if is_negative c.sock_fd
    then record { returned = false; message = none; buffers = 0 }
    else if not allocates
    then record { returned = false; message = none; buffers = 0 }
    else if sends
    then record { returned = true; message = some (datagram_of getpid msg); buffers = 1 - 1 }
    else record { returned = false; message = none; buffers = 1 - 1 }

-- `sendMessage` answers true exactly if there is a socket, the memory is allocated and sendmsg
-- succeeds; the message went out exactly if it answers true; and it frees its buffer in every case.
pub send_message-returned :
    (c : NetLinkClient) (allocates sends : Bool) (getpid : ℕ) (msg : List ℕ)
    → let s = send_message c allocates sends getpid msg in
      (s.returned ≡ (not (is_negative c.sock_fd) && (allocates && sends)))
      × (s.message ≡ (if s.returned then some (datagram_of getpid msg) else none))
      × (s.buffers ≡ 0)
unfolding send_message
send_message-returned c allocates sends getpid msg = ground arith

-- What `nl_recv_msg` takes from a message: `nlh->nlmsg_pid`, and the payload read as a string.
unfoldable pub user_msg : Datagram → UserMsg
user_msg d = record { nlmsg_pid = d.nlmsg_pid; text = c_string d.payload }

zeros_then : (k : ℕ) → ◌++◌ {A = ℕ} (replicate k 0) (0 ∷ []) ≡ 0 ∷ replicate k 0
zeros_then zero = refl
zeros_then (suc k) = ap (◌∷◌ 0) (zeros_then k)

-- The kernel module reads the first 1023 bytes of the text that was sent, or fewer if a NUL or the
-- end of the text comes first.
pub user_msg-datagram_of :
    (getpid : ℕ) (msg : List ℕ)
    → (user_msg (datagram_of getpid msg)).text ≡ take (max_payload - 1) (c_string msg)
unfolding user_msg datagram_of
user_msg-datagram_of getpid msg =
    ap c_string (append_assoc s _ _ ∙ ap (λ l. s ++ l) (zeros_then _))
    ∙ c_string-append s _ (IsText-take (max_payload - 1) _ (c_string-IsText msg))
  where
    s : List ℕ
    s = take (max_payload - 1) (c_string msg)

-- A text with no NUL that is shorter than the buffer is read by the kernel module as it was sent,
-- with the sender's process id.
pub user_msg_roundtrip :
    (getpid : ℕ) (msg : List ℕ)
    → IsText msg
    → length msg < max_payload
    → user_msg (datagram_of getpid msg) ≡ record { nlmsg_pid = getpid; text = msg }
unfolding user_msg datagram_of
user_msg_roundtrip getpid msg t short = λ i. record { nlmsg_pid = getpid; text = whole i }
  where
    whole : (user_msg (datagram_of getpid msg)).text ≡ msg
    whole =
        user_msg-datagram_of getpid msg
        ∙ ap (take (max_payload - 1)) (c_string_of_text msg t)
        ∙ take_all (max_payload - 1) msg (omega arith)
