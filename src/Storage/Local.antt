-- ===== src/Storage/Local.antt =====
-- src/storage/local.rs: a cell for one thread. Its exchange does not look at the expected value.
use gardal.Prelude.{refl, ok}
use gardal.Float.Value.{F64, IsF64}
use gardal.Storage.Interface.{TimeStorage, IsStorage}

pub record LocalStorage : Type 0 where
  pub cell : F64

instance abbrev pub local_storage : TimeStorage LocalStorage
local_storage = record {
  new = λ zero_time. record { cell = zero_time };
  load = λ s. s.cell;
  store = λ _ value. record { cell = value };
  compare_exchange_weak = λ _ _ _ new. (ok tt, record { cell = new });
}

pub LocalStorage-IsStorage : IsStorage LocalStorage
LocalStorage-IsStorage = record {
  IsValid = λ s. IsF64 s.cell;
  new-IsValid = λ z h. h;
  store-IsValid = λ s z h. h;
  load-IsF64 = λ s h. h;
  load-new = λ z h. refl;
  load-store = λ s z h. refl;
  store-store = λ s y z. refl;
  exchange_quiet = λ s z h. refl;
}
