-- ===== src/Lib.antt =====
-- The device library of azure-iot-device (azure-iot-device/azure/iot/device): an operation of the
-- client goes down a pipeline of stages and events come back up. This development models the
-- stages that decide when and how often an operation reaches the network, the completion of
-- operations, and the texts of the MQTT topics that the stages exchange with the services.
--
-- How the parts interact. Each stage receives operations from the one above (`_run_op`) and events
-- from the one below (`_handle_pipeline_event`), and adds callbacks to operations that it watches;
-- completing an operation calls its callbacks, last added first. All stages run on one thread, but a
-- call of another stage may call back into the stage before it returns. A stage is modelled by a
-- record of its state, with the outputs that it has produced and the loops that are suspended in a
-- call of the outside; a function per method; and `step` and `run`, which take stimuli in any order:
-- arrivals, completions, events, timers, and the return of control to the innermost loop. A theorem
-- on all lists of stimuli therefore covers every way in which the stages around may behave.
--
-- Files and code (paths below azure-iot-device/azure/iot/device):
--   Prelude.antt, Prelude/   library names, tests on numbers, lemmas on lists
--   Errors.antt              the exceptions of common/transport_exceptions.py and
--                            common/pipeline/pipeline_exceptions.py that are modelled
--   Pipeline/Operation       common/pipeline/pipeline_ops_base.py: PipelineOperation
--   Pipeline/Ops             the classes of operations and events that the stages tell apart
--   Pipeline/ConnectionLock  common/pipeline/pipeline_stages_base.py: ConnectionLockStage
--   Pipeline/ConnectionState the same file: ConnectionStateStage and ReconnectState
--   Pipeline/Coordinate      the same file: CoordinateRequestAndResponseStage
--   Pipeline/Retry           the same file: OpTimeoutStage and RetryStage
--   Pipeline/AutoConnect     the same file: AutoConnectStage
--   Pipeline/SasToken        the same file: SasTokenStage, and common/auth/sastoken.py:
--                            RenewableSasToken.refresh
--   Transport/OperationManager
--                            common/mqtt_transport.py: OperationManager
--   Provisioning/Topic       provisioning/pipeline/mqtt_topic_provisioning.py
--   Auth/ConnectionString    common/auth/connection_string.py
--   Pipeline/MqttTransport   common/pipeline/pipeline_stages_mqtt.py: MQTTTransportStage
--   Transport/MqttTransport  common/mqtt_transport.py: MQTTTransport and the tables of errors
--   Provisioning/Exchange    provisioning/pipeline/pipeline_stages_provisioning.py: the registration
--                            and polling stages
--   Provisioning/Translation provisioning/pipeline/pipeline_stages_provisioning_mqtt.py
--   Pipeline/Connection      ConnectionLockStage and MQTTTransportStage together
--   Iothub/MqttPipeline      iothub/pipeline/mqtt_pipeline.py: MQTTPipeline
--   Iothub/Topic             iothub/pipeline/mqtt_topic_iothub.py
--   Iothub/Message           iothub/models/message.py, and the two functions of the same topic file
--                            that write and read the properties of a message
--   Iothub/Translation       iothub/pipeline/pipeline_stages_iothub_mqtt.py: IoTHubMQTTTranslationStage
--   Iothub/DesiredProperties iothub/pipeline/pipeline_stages_iothub.py: EnsureDesiredPropertiesStage
--                            and TwinRequestResponseStage
--   Iothub/Inboxes           iothub/inbox_manager.py: InboxManager, and iothub/sync_inbox.py
--   Text                     Python's str.split, in, startswith, int, urllib.parse.quote and unquote
-- A method `_run_op` is `run_op`, a leading underscore is dropped, and a nested callback has its own
-- name. Each of these has child modules that are named for what they prove, and a module Samples
-- with concrete runs.
--
-- Bounds and fuel. Numbers are unbounded, as Python's are. The completion of an operation runs its
-- callbacks, which may complete operations in turn, so it is given fuel and may yield `out_of_fuel`;
-- the theorems on it say how much is enough: more than there are callbacks on the stack. All other
-- functions are structurally recursive. A text is the list of the bytes of its UTF-8 encoding.
--
-- Not modelled: paho, whose codes are a parameter and whose results are arguments, and the set-up of
-- its client; JSON, of which only the decoded values appear; the HTTP transport and its stages; the
-- threads and timers themselves (when a timer expires is a choice of the stimuli; where its function
-- is called on the pipeline thread later, in the connection state, SAS token and provisioning
-- stages, that is a stimulus of its own, except for the retry timer of the SAS token stage);
-- logging, names of operations, tracebacks, the base and root stages, the clients and their handlers,
-- which are plumbing around the parts above or calls of other libraries; the service client,
-- whose protocol code is generated; samples and tests. Request ids of `uuid4` are arguments.
pub mod Prelude
pub mod Errors
pub mod Pipeline
pub mod Text
pub mod Iothub
pub mod Transport
pub mod Provisioning
pub mod Auth
