-- ===== src/Examples.antt =====
-- The theorems at concrete inputs, and runs of the definitions.
mod PeersExamples
mod CertExamples
mod CommandExamples
mod BatchExamples
mod LogExamples
mod MeshExamples
mod NginxExamples
mod SyncExamples
mod SnapshotExamples
mod I18nExamples
mod ConvergeExamples
mod StoreExamples
mod RenewExamples
mod HandlerExamples
mod RestoreExamples
mod GeneratorExamples
mod SettingExamples
