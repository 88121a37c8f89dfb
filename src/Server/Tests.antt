-- ===== src/Server/Tests.antt =====
-- Runs of the handlers of src/xty_msg_server.cpp, and the theorems at them, with the comparison of
-- std::string.
use xty.Base.{◌≡◌, true, [], ◌∷◌}
use xty.Comparable.Strings.{string_comparable}
use xty.RbTree.{empty}
use xty.RbTree.Insert.{IsValid, empty-IsValid}
use xty.Map.{node_comparable, assign}
use xty.Map.Laws.{assign-IsValid}
use xty.Msg.{reg}
use xty.Msg.Stream.{ok}
use xty.Msg.Entities.{release}
use xty.Server.{ClientEntity, null, Server, handle_reg}
use xty.Server.Handlers.{IsWritten, handle_reg_lem}

abbrev no_client : ClientEntity
no_client = record { client_fd = 5; client_name = []; client_ip = []; client_port = [] }

-- One client that was accepted from "1:2", at the address 100
abbrev accepted : Server
accepted = record {
  active_clients = assign null empty (49 ∷ 58 ∷ 50 ∷ []) 100;
  clients = λ _. no_client;
  entities = record { is_occupied = true; handle = 300 } ∷ [];
  send_queue = record { queue = []; events = 0; sent = []; received = [] };
}

accepted-IsValid : IsValid accepted.active_clients
accepted-IsValid = assign-IsValid null empty (49 ∷ 58 ∷ 50 ∷ []) 100 empty-IsValid

handle_reg_lem_example :
    (s' : Server) × (handle_reg 300 (reg (112 ∷ []) (49 ∷ []) (50 ∷ [])) accepted ≡ ok s')
    × IsWritten (49 ∷ 58 ∷ 50 ∷ []) (112 ∷ []) (49 ∷ []) (50 ∷ []) accepted s'
    × (s'.entities ≡ release 300 accepted.entities)
handle_reg_lem_example = handle_reg_lem 300 (112 ∷ []) (49 ∷ []) (50 ∷ []) accepted accepted-IsValid
