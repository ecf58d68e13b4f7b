-- ===== src/Utils.antt =====
-- ext/asyncengine/ae_utils.c: what libuv reports of the system, as Ruby values. Each function takes
-- what libuv answers.
use async_engine.Base.{Bool, List, [], if◌then◌else◌, map, ℕ, ◌%◌, ◌+◌, ◌∷◌}
use async_engine.World.Monad.{Env, M, pure}
use async_engine.Dns.{Family, af_inet, af_inet6, af_other, name_or}
use async_engine.Ruby.{Value, external, fixnum, float, qnil, string, symbol}
use async_engine.HandleCommon.{ae_raise_uv_error}
use async_engine.Base.Int.{nonzero, ℤ}
use async_engine.IpUtils.{to_rb}

-- `long2fix` is LONG2FIX((long)n) of ruby.h on a uint64_t.
module _ (long2fix : ℕ → ℤ) where
  -- Utils.get_hrtime, get_total_memory and get_free_memory.
  unfoldable pub get_hrtime : ℕ → Value
  get_hrtime uv_hrtime = fixnum (long2fix uv_hrtime)

  unfoldable pub get_total_memory : ℕ → Value
  get_total_memory uv_total_memory = fixnum (long2fix uv_total_memory)

  unfoldable pub get_free_memory : ℕ → Value
  get_free_memory uv_free_memory = fixnum (long2fix uv_free_memory)

-- Utils.get_loadavg, an array of three floats.
unfoldable pub get_loadavg : ℤ → ℤ → ℤ → List Value
get_loadavg one five fifteen = float one ∷ float five ∷ float fifteen ∷ []

-- uv_interface_address_t.
pub record InterfaceAddress : Type 0 where
  pub name : List ℕ
  pub is_internal : Bool
  pub sin_family : Family
  pub address : List ℕ

-- AE::Utils::NetworkInterface, by its instance variables.
pub record NetworkInterface : Type 0 where
  pub att_name : Value
  pub att_is_internal : Value
  pub att_ip_type : Value
  pub att_ip : Value

-- uv_cpu_info_t; the times are uint64_t.
pub record UvCpuInfo : Type 0 where
  pub model : List ℕ
  pub speed : ℤ
  pub sys : ℕ
  pub user : ℕ
  pub idle : ℕ
  pub irq : ℕ
  pub nice : ℕ

-- AE::Utils::CpuInfo.
pub record CpuInfo : Type 0 where
  pub att_model : Value
  pub att_speed : Value
  pub att_time_sys : Value
  pub att_time_user : Value
  pub att_time_idle : Value
  pub att_time_irq : Value
  pub att_time_nice : Value

-- The sum of the times, a uint64_t.
unfoldable pub cpu_times_total : UvCpuInfo → ℕ
cpu_times_total cpu = (cpu.sys + cpu.user + cpu.idle + cpu.irq + cpu.nice) % 18446744073709551616

-- `percent` is the expression on doubles `time * 100.0 / total`, of a time and the total.
module _ (percent : ℕ → ℕ → ℤ) where
  -- One element of Utils.get_cpu_info.
  unfoldable pub cpu_info : UvCpuInfo → CpuInfo
  unfolding cpu_times_total
  cpu_info cpu =
      let total = cpu_times_total cpu in
      record {
        att_model = string external cpu.model;
        att_speed = fixnum cpu.speed;
        att_time_sys = float (percent cpu.sys total);
        att_time_user = float (percent cpu.user total);
        att_time_idle = float (percent cpu.idle total);
        att_time_irq = float (percent cpu.irq total);
        att_time_nice = float (percent cpu.nice total);
      }

module _ (env : Env) where
  -- The raise on an error of libuv, and what follows it.
  unfoldable pub unless_error : {A : Type 0} → ℤ → A → M A
  unfolding ae_raise_uv_error
  unless_error code a = if nonzero code then ae_raise_uv_error env code else pure a

  -- Utils.get_uptime.
  unfoldable pub get_uptime : ℤ → ℤ → M Value
  unfolding unless_error
  get_uptime code uptime = unless_error code (float uptime)

  -- One element of Utils.get_network_interfaces, and the buffer for its address afterwards. An
  -- interface of another family keeps nil.
  unfoldable pub network_interface : List ℕ → InterfaceAddress → NetworkInterface × List ℕ
  unfolding name_or
  network_interface ip i = elim i.sin_family [
    | af_inet ↦ (
      record {
        att_name = string external i.name;
        att_is_internal = to_rb i.is_internal;
        att_ip_type = symbol "ipv4";
        att_ip = string external (name_or ip (env.inet_ntop4 i.address));
      },
      name_or ip (env.inet_ntop4 i.address),
    )
    | af_inet6 ↦ (
      record {
        att_name = string external i.name;
        att_is_internal = to_rb i.is_internal;
        att_ip_type = symbol "ipv6";
        att_ip = string external (name_or ip (env.inet_ntop6 i.address));
      },
      name_or ip (env.inet_ntop6 i.address),
    )
    | af_other ↦ (
      record {
        att_name = string external i.name;
        att_is_internal = to_rb i.is_internal;
        att_ip_type = qnil;
        att_ip = qnil;
      },
      ip,
    )
  ]

  unfoldable pub network_interfaces : List ℕ → List InterfaceAddress → List NetworkInterface
  unfolding network_interface
  network_interfaces ip [] = []
  network_interfaces ip (i ∷ rest) =
      let (first, ip) = network_interface ip i in first ∷ network_interfaces ip rest

  -- Utils.get_network_interfaces.
  unfoldable pub get_network_interfaces : ℤ → List InterfaceAddress → M (List NetworkInterface)
  unfolding unless_error network_interfaces
  get_network_interfaces code interfaces =
      unless_error code (network_interfaces (env.memory_address.0) interfaces)

  -- Utils.get_cpu_info.
  unfoldable pub get_cpu_info : (ℕ → ℕ → ℤ) → ℤ → List UvCpuInfo → M (List CpuInfo)
  unfolding unless_error cpu_info
  get_cpu_info percent code cpus = unless_error code (map (cpu_info percent) cpus)
