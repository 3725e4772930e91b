-- ===== src/Containers.antt =====
-- bordercontrol/lib/containers: the feed-in containers. What Docker answers is an argument; a name,
-- an image and an ID are texts, an error of Docker is a number.
pub mod Check
pub mod Create
pub mod Kick
pub mod Rebuild
pub mod Worker
pub mod Lifecycle
use bordercontrol.Prelude.{ℕ, String}

pub data ContainerError : Type 0 where
  not_initialised context_cancelled timeout_start_req timeout_start_resp : ContainerError
  multiple_containers_found container_not_found : ContainerError
  docker_error : ℕ → ContainerError

-- What the code reads of a container that Docker lists.
pub record Container : Type 0 where
  pub id : String
  pub image : String
