-- ===== src/Util/Types.antt =====
-- The structs of include/DS-Lab-Assignment/util.h. A char array is the C string that it holds. The
-- members of the unions stand side by side: the code reads the member that it wrote.
use ds_lab_assignment.Prelude.{ℕ, Bytes}

-- `message_t`
pub record Message : Type 0 where
  pub sender : Bytes
  pub id : ℕ  -- unsigned int
  pub content : Bytes

-- `request_t`
pub record Request : Type 0 where
  pub op_code : Bytes
  pub username : Bytes
  pub client_port : Bytes
  pub recipient : Bytes
  pub message : Message

-- `struct userdata`
pub record Userdata : Type 0 where
  pub status : ℕ  -- unsigned char
  pub ip : ℕ  -- in_addr, 0 after bzero
  pub port : ℕ  -- uint16_t
  pub last_msg_id : ℕ  -- unsigned int

-- `ENT_TYPE_UD`, `ENT_TYPE_P_MSG`, or any other byte
pub data EntryType : Type 0 where
  ud p_msg other : EntryType

-- `entry_t`
pub record Entry : Type 0 where
  pub username : Bytes
  pub type : EntryType
  pub user : Userdata
  pub msg : Message

-- The access modes READ, CREATE, OVERWRITE, MODIFY and DELETE, or any other byte.
pub data Mode : Type 0 where
  read create overwrite modify delete unknown : Mode
