-- ===== src/Samples.antt =====
-- Runs at concrete inputs.
mod BrokerSamples
mod AstSamples
mod GqlSamples
mod ServiceSamples
mod ConfigSamples
mod DatabaseSamples
mod ApiSamples
mod FileSamples
mod SettingsSamples
mod AdministrationSamples
