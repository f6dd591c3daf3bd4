-- ===== src/State.antt =====
-- libsponge/tcp_helpers/tcp_state.hh and .cc: the official states of a connection. The summaries are
-- strings in the source, each with one constant per line; here they are the names of the constants.
use csed.Base.{
  ◌+◌, ◌%◌, Bool, true, false, not, Option, none, some, ltb, ◌==◌, if◌then◌else◌, u64_mod,
}
use csed.ByteStream
use csed.Receiver
use csed.Receiver.{TcpReceiver}
use csed.Sender.{TcpSender}
use csed.Connection.{TcpConnection}

pub data ReceiverSummary : Type 0 where
  receiver_error : ReceiverSummary
  receiver_listen : ReceiverSummary
  receiver_syn_recv : ReceiverSummary
  receiver_fin_recv : ReceiverSummary

pub data SenderSummary : Type 0 where
  sender_error : SenderSummary
  sender_closed : SenderSummary
  sender_syn_sent : SenderSummary
  sender_syn_acked : SenderSummary
  sender_fin_sent : SenderSummary
  sender_fin_acked : SenderSummary

pub data State : Type 0 where
  listen : State
  syn_rcvd : State
  syn_sent : State
  established : State
  close_wait : State
  last_ack : State
  fin_wait_1 : State
  fin_wait_2 : State
  closing : State
  time_wait : State
  closed : State
  reset : State

pub record TcpState : Type 0 where
  pub sender : SenderSummary
  pub receiver : ReceiverSummary
  pub active : Bool
  pub linger_after_streams_finish : Bool

abbrev summaries : SenderSummary → ReceiverSummary → Bool → Bool → TcpState
summaries s r active linger = record {
  sender = s;
  receiver = r;
  active = active;
  linger_after_streams_finish = linger;
}

-- `TCPState(const TCPState::State state)`.
unfoldable pub of_state : State → TcpState
of_state listen = summaries sender_closed receiver_listen true true
of_state syn_rcvd = summaries sender_syn_sent receiver_syn_recv true true
of_state syn_sent = summaries sender_syn_sent receiver_listen true true
of_state established = summaries sender_syn_acked receiver_syn_recv true true
of_state close_wait = summaries sender_syn_acked receiver_fin_recv true false
of_state last_ack = summaries sender_fin_sent receiver_fin_recv true false
of_state closing = summaries sender_fin_sent receiver_fin_recv true true
of_state fin_wait_1 = summaries sender_fin_sent receiver_syn_recv true true
of_state fin_wait_2 = summaries sender_fin_acked receiver_syn_recv true true
of_state time_wait = summaries sender_fin_acked receiver_fin_recv true true
of_state reset = summaries sender_error receiver_error false false
of_state closed = summaries sender_fin_acked receiver_fin_recv false false

unfoldable pub has_value {ℓ} : {A : Type ℓ} → Option A → Bool
has_value none = false
has_value (some x) = true

unfoldable pub receiver_summary : TcpReceiver → ReceiverSummary
unfolding has_value
receiver_summary r =
    if r.reassembler.output.error
    then receiver_error
    else (if not (has_value (Receiver.ackno r))
        then receiver_listen
        else (if ByteStream.input_ended r.reassembler.output
            then receiver_fin_recv
            else receiver_syn_recv))

unfoldable pub sender_summary : TcpSender → SenderSummary
sender_summary s =
    if s.stream.error
    then sender_error
    else (if s.next_seqno == 0
        then sender_closed
        else (if s.next_seqno == s.bytes_in_flight
            then sender_syn_sent
            else (if not (ByteStream.eof s.stream)
                then sender_syn_acked
                else (if ltb s.next_seqno ((s.stream.bytes_written + 2) % u64_mod)
                    then sender_syn_acked
                    else (if ltb 0 s.bytes_in_flight then sender_fin_sent else sender_fin_acked)))))

-- `TCPConnection::state()`.
unfoldable pub state : TcpConnection → TcpState
unfolding receiver_summary sender_summary
state c = record {
  sender = sender_summary c.sender;
  receiver = receiver_summary c.receiver;
  active = c.is_active;
  linger_after_streams_finish = if c.is_active then c.linger_after_streams_finish else false;
}
