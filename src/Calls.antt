-- ===== src/Calls.antt =====
-- What a reconciliation does to the world outside: its calls and events, newest first. The answer
-- to a call may depend on all the calls before it, so the environment is free to change between
-- any two calls.
use artifact_controller.Prelude.{String, List}
use artifact_controller.Api.Json.{Object}
use artifact_controller.Api.Artifact.{Artifact, GeneratorReference}
use artifact_controller.Toolkit.{GroupVersionKind}

-- corev1.EventTypeNormal, corev1.EventTypeWarning
pub data EventType : Type 0 where
  normal warning : EventType

pub data Call : Type 0 where
  -- client.Client
  get_artifact : String → String → Call
  get_class : String → Call
  get_run : GeneratorReference → Call
  create_run : Object → Call
  delete_run : GeneratorReference → Call
  delete_artifact : String → String → Call
  patch : Artifact → Call
  -- controller.Watch
  watch : GroupVersionKind → Call
  -- store.Factory and store.Driver
  build_driver : String → Call
  observe : String → Call
  delete_object : String → Call
  -- record.EventRecorder: type, reason, message
  event : EventType → String → String → Call

abbrev pub Trace : Type 0
Trace = List Call
