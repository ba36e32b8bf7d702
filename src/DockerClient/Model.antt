-- ===== src/DockerClient/Model.antt =====
-- docker/src/model.rs: what Docker's API lists of containers. An `isize` and an `i64` are integers.
use pingoo.Prelude.{
  ℕ, String, List, [], Option, none, some, Bool, false, ◌≡◌, refl, HashMap, map, string_eq, ◌==◌,
  if◌then◌else◌, Result, ok, err,
}
use pingoo.Jwt.{ℤ}
use pingoo.Discovery.Docker.{Container}

pub record ListContainersOptions : Type 0 where
  pub all : Bool
  pub limit : Option ℤ
  pub size : Bool
  pub filters : HashMap String (List String)

abbrev pub default_options : ListContainersOptions
default_options = record { all = false; limit = none; size = false; filters = [] }

pub data PortTypeEnum : Type 0 where
  empty_port tcp udp sctp : PortTypeEnum

-- `Display` and `AsRef`
unfoldable pub port_type_to_str : PortTypeEnum → String
port_type_to_str empty_port = ""
port_type_to_str tcp = "tcp"
port_type_to_str udp = "udp"
port_type_to_str sctp = "sctp"

-- the error holds the text that is no type
unfoldable pub port_type_from_str : String → Result PortTypeEnum String
port_type_from_str s =
    if s == ""
    then ok empty_port
    else if s == "tcp"
    then ok tcp
    else if s == "udp"
    then ok udp
    else if s == "sctp"
    then ok sctp
    else err s

port_type_from_str-to_str : (t : PortTypeEnum) → port_type_from_str (port_type_to_str t) ≡ ok t
unfolding port_type_from_str port_type_to_str
port_type_from_str-to_str empty_port = refl
port_type_from_str-to_str tcp = refl
port_type_from_str-to_str udp = refl
port_type_from_str-to_str sctp = refl

pub data MountPointTypeEnum : Type 0 where
  empty_mount bind volume tmpfs npipe cluster : MountPointTypeEnum

-- `Display` and `AsRef`
unfoldable pub mount_type_to_str : MountPointTypeEnum → String
mount_type_to_str empty_mount = ""
mount_type_to_str bind = "bind"
mount_type_to_str volume = "volume"
mount_type_to_str tmpfs = "tmpfs"
mount_type_to_str npipe = "npipe"
mount_type_to_str cluster = "cluster"

-- the error holds the text that is no type
unfoldable pub mount_type_from_str : String → Result MountPointTypeEnum String
mount_type_from_str s =
    if s == ""
    then ok empty_mount
    else if s == "bind"
    then ok bind
    else if s == "volume"
    then ok volume
    else if s == "tmpfs"
    then ok tmpfs
    else if s == "npipe"
    then ok npipe
    else if s == "cluster"
    then ok cluster
    else err s

mount_type_from_str-to_str :
    (t : MountPointTypeEnum) → mount_type_from_str (mount_type_to_str t) ≡ ok t
unfolding mount_type_from_str mount_type_to_str
mount_type_from_str-to_str empty_mount = refl
mount_type_from_str-to_str bind = refl
mount_type_from_str-to_str volume = refl
mount_type_from_str-to_str tmpfs = refl
mount_type_from_str-to_str npipe = refl
mount_type_from_str-to_str cluster = refl

pub record Port : Type 0 where
  pub ip : Option String
  pub private_port : ℕ
  pub public_port : Option ℕ
  pub typ : Option PortTypeEnum

pub record EndpointIpamConfig : Type 0 where
  pub ipv4_address : Option String
  pub ipv6_address : Option String
  pub link_local_i_ps : Option (List String)

pub record EndpointSettings : Type 0 where
  pub ipam_config : Option EndpointIpamConfig
  pub links : Option (List String)
  pub mac_address : Option String
  pub aliases : Option (List String)
  pub network_id : Option String
  pub endpoint_id : Option String
  pub gateway : Option String
  pub ip_address : Option String
  pub ip_prefix_len : Option ℤ
  pub ipv6_gateway : Option String
  pub global_ipv6_address : Option String
  pub global_ipv6_prefix_len : Option ℤ
  pub driver_opts : Option (HashMap String String)
  pub dns_names : Option (List String)

pub record MountPoint : Type 0 where
  pub typ : Option MountPointTypeEnum
  pub name : Option String
  pub source : Option String
  pub destination : Option String
  pub driver : Option String
  pub mode : Option String
  pub rw : Option Bool
  pub propagation : Option String

pub record ContainerSummaryHostConfig : Type 0 where
  pub network_mode : Option String

pub record ContainerSummaryNetworkSettings : Type 0 where
  pub networks : Option (HashMap String EndpointSettings)

pub record ContainerSummary : Type 0 where
  pub id : Option String
  pub names : Option (List String)
  pub image : Option String
  pub image_id : Option String
  pub command : Option String
  pub created : Option ℤ
  pub ports : Option (List Port)
  pub size_rw : Option ℤ
  pub size_root_fs : Option ℤ
  pub labels : Option (HashMap String String)
  pub state : Option String
  pub status : Option String
  pub host_config : Option ContainerSummaryHostConfig
  pub network_settings : Option ContainerSummaryNetworkSettings
  pub mounts : Option (List MountPoint)

abbrev pub map_option : {A B : Type 0} → (A → B) → Option A → Option B
map_option f none = none
map_option f (some a) = some (f a)

-- what the discoverer reads of a container
unfoldable pub read_by_discoverer : ContainerSummary → Container
read_by_discoverer c = record {
  id = c.id;
  labels = c.labels;
  ports = map_option (map (λ (p : Port). p.private_port)) c.ports;
  networks =
      map_option
        (λ (s : ContainerSummaryNetworkSettings).
          map_option (map (λ (n : String × EndpointSettings). (n.0, n.1.ip_address))) s.networks)
        c.network_settings;
}
