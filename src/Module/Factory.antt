-- ===== src/Module/Factory.antt =====
-- How the two modules are registered with IIS: AsgiHandler/AsgiHandler.cpp with
-- AsgiHandlerLib/HttpModuleFactory.cpp, and ProcessPool/ProcessPool.cpp. What a request gets is a
-- HttpModule, of which only the references to the factory's pump and logger are its own.
use iis_asgi_handler.Prelude.{ℕ, Bool, false, [], Option, none, some, Result, ok, ◌>>=◌}
use iis_asgi_handler.Iis.{s_ok}
use iis_asgi_handler.Logger.{Etw, etw_logger}
use iis_asgi_handler.Pump.{ResponsePump, top}
use iis_asgi_handler.Redis.Commands.{Started, ready, exited, connect}

-- ResponsePump::ResponsePump() and Start().
unfoldable pub response_pump {ℓ} : {Callback : Type ℓ} → ResponsePump Callback
response_pump = record {
  callbacks = [];
  thread_stop = false;
  phase = top;
  delay = 0;
  tasks = [];
  dropped = [];
}

pub record HttpModuleFactory {ℓ} (Callback : Type ℓ) : Type ℓ where
  pub module_id : ℕ
  pub logger : ℕ
  pub pump : ResponsePump Callback

pub record HttpModule : Type 0 where
  pub module_id : ℕ
  pub logger : ℕ

module _ {ℓ} {Callback : Type ℓ} (etw : Etw) where
  -- HttpModuleFactory::HttpModuleFactory(), unless its channel layer ends the process.
  unfoldable pub http_module_factory :
      (module_id : ℕ) (context : Option Bool)
      → etw.World
      → Result (Option (HttpModuleFactory Callback) × etw.World)
  http_module_factory module_id context w =
      let (logger, w') = etw_logger etw w in
      connect context >>= λ started. ok (made started logger, w')
    where
      made : Started → ℕ → Option (HttpModuleFactory Callback)
      made exited logger = none
      made ready logger =
          some (record { module_id = module_id; logger = logger; pump = response_pump })

-- HttpModuleFactory::GetHttpModule()
unfoldable pub get_http_module {ℓ} :
    {Callback : Type ℓ} → HttpModuleFactory Callback → ℕ × HttpModule
get_http_module factory = (s_ok, record { module_id = factory.module_id; logger = factory.logger })

-- IHttpModuleRegistrationInfo, whose calls give an HRESULT.
pub record RegistrationInfo : Type 1 where
  pub World : Type 0
  pub set_request_notifications : World → ℕ × World
  pub set_global_notifications : World → ℕ × World

module _ (module_info : RegistrationInfo) where
  -- RegisterModule() of AsgiHandler.cpp
  unfoldable pub register_module : module_info.World → ℕ × module_info.World
  register_module w = let (hr, w') = module_info.set_request_notifications w in (s_ok, w')

  -- RegisterModule() of ProcessPool.cpp
  unfoldable pub register_process_pool : module_info.World → ℕ × module_info.World
  register_process_pool w = module_info.set_global_notifications w
