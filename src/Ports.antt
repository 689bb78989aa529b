-- ===== src/Ports.antt =====
-- src/controlplane/ports.go: the port interfaces. `W` is the world behind a port: the engine, the
-- key service, the clock, the source of random bytes. A call takes the world and returns the next.
-- The contexts are left out: this code cancels none, and its adapters read none.
use sovereign_core.Prelude.{ℕ, ℤ, Text, Option, Result}

-- What BootInstance returns: the boot time is read on an error too.
pub record Booted : Type 0 where
  pub instance_id : Text
  pub host : Text
  pub boot_ms : ℤ
  pub err : Option Text

pub record StoragePort (W : Type 0) : Type 0 where
  pub create_branch : Text → Text → Text → W → Result Text × W
  pub delete_branch : Text → Text → W → Option Text × W
  pub boot_instance : Text → W → Booted × W
  pub attach_branch : Text → Text → W → Option Text × W
  pub suspend_endpoint : Text → Text → W → Option Text × W
  pub delete_endpoint : Text → Text → W → Option Text × W

pub record Claims : Type 0 where
  pub org_id : Text
  pub user_id : Text
  pub role : Text

pub record AuthPort (W : Type 0) : Type 0 where
  pub issue_token : Text → Text → Text → W → Result Text × W
  pub verify_token : Text → W → Result Claims × W
  -- The key set and an error; the two may come together.
  pub jwks : W → (Text × Option Text) × W

pub record KmsPort (W : Type 0) : Type 0 where
  pub provision_tenant_kek : Text → W → Result Text × W

-- (user, password)
pub record SecretPort (W : Type 0) : Type 0 where
  pub issue_db_credential : Text → Text → W → Result (Text × Text) × W

pub record PaymentPort (W : Type 0) : Type 0 where
  pub create_customer : Text → W → Result Text × W

-- time.Now, in nanoseconds.
pub record Clock (W : Type 0) : Type 0 where
  pub now : W → ℕ × W
