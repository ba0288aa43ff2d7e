-- ===== src/Tests/Replies.antt =====
-- A round in which the client's socket fails within the message ID.
use ds_lab_assignment.Prelude.{[], ◌∷◌, ◌≡◌, refl, true, false, codes}
use ds_lab_assignment.Services.World.{accepts, World}
use ds_lab_assignment.Dbms.Fs.{remove_entry}
use ds_lab_assignment.Services.Send.{aux_send_first_ack}
use ds_lab_assignment.Util.Decimal.{decimal}
use ds_lab_assignment.Tests.Contract.{wire}
use ds_lab_assignment.Tests.Fixtures.{database, ann, bob, world}

-- The socket takes the code 0 and one of the two bytes of the ID.
abbrev broken : World
broken = record (world (wire (codes "SEND" ∷ ann ∷ bob ∷ codes "hi" ∷ [])) (accepts 4 ∷ [])) {
  fs = record database { faulty = λ call path. elim call [ remove_entry ↦ true | _ ↦ false ] };
  writable = false;
  room = 2;
}

-- what the client gets of the code and the ID
first_bytes : (aux_send_first_ack 0 0 broken).replies ≡ (0 ∷ []) ∷ (48 ∷ []) ∷ []
unfolding aux_send_first_ack decimal
first_bytes = refl
