-- ===== src/Contract/Wire.antt =====
-- How a client spells a request on its socket, one string after the other, and what `recv_string` of
-- src/netUtil.c makes of it.
use ds_lab_assignment.Prelude.{
  ◌<◌, ◌≡◌, refl, false, inl, List, [], ◌∷◌, Bytes, codes, length, take_of_le, arith,
}
use ds_lab_assignment.Util.Codes.{gen_success, max_msg_size}
use ds_lab_assignment.Util.Decimal.{decimal}
use ds_lab_assignment.Util.ReadLine.{ReadEvent, Spelled}
use ds_lab_assignment.Util.ReadLine.Laws.{read_line_lem}
use ds_lab_assignment.NetUtil.{recv_string}
use ds_lab_assignment.Services.World.{World, receive}
use ds_lab_assignment.Contract.{Call}

-- The events spell these strings, each shorter than the server's buffer, and what follows.
pub data Says : List ReadEvent → List Bytes → List ReadEvent → Type 0 where
  silent : {events : List ReadEvent} → Says events [] events
  says :
      {events between rest : List ReadEvent} {string : Bytes} {strings : List Bytes}
      → length string < max_msg_size
      → Spelled events string false between
      → Says between strings rest
      → Says events (string ∷ strings) rest

-- the strings of a request
abbrev pub words : Call → List Bytes
words (Call.register name) = codes "REGISTER" ∷ name ∷ []
words (Call.unregister name) = codes "UNREGISTER" ∷ name ∷ []
words (Call.connect name port) = codes "CONNECT" ∷ name ∷ decimal port ∷ []
words (Call.disconnect name) = codes "DISCONNECT" ∷ name ∷ []
words (Call.send from to content) = codes "SEND" ∷ from ∷ to ∷ content ∷ []

pub receive_lem :
    (old string : Bytes) (w : World) (rest : List ReadEvent)
    → length string < max_msg_size
    → Spelled w.input string false rest
    → receive old w
      ≡ record { result = gen_success; string = string; world = record w { input = rest } }
unfolding receive recv_string
receive_lem old string w rest short spelled =
    rw (read_line_lem 255 old (omega arith) spelled (inl refl), take_of_le 255 string (omega arith))
      refl
